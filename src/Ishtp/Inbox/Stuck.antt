-- ===== src/Ishtp/Inbox/Stuck.antt =====
-- A message that stays in the queue, src/intel-ish-hid-linux-6.5/ishtp/hbm.c.
use ubuntu_elkhart_lake_pse.Prelude.{ℕ, ◌≤◌, ◌≡◌, false, List, [], ◌∷◌, some, arith, length, take}
use ubuntu_elkhart_lake_pse.Ishtp.Inbox.{Inbox, queue_hbm, bh_hbm_work_fn}
use ubuntu_elkhart_lake_pse.Ishtp.Inbox.Blocks.{IsQueue, queued, took}

work_done : (i : Inbox) → (bh_hbm_work_fn i).1.bh_hbm_work ≡ false
unfolding bh_hbm_work_fn
work_done i = ground arith

-- If two messages come before the work runs, the work dispatches the first; the second stays in the queue,
-- and the work is not scheduled for it.
pub second_message_waits :
    (i : Inbox) (m n : List ℕ)
    → IsQueue i []
    → length m ≤ 128
    → length n ≤ 128
    → (b : List ℕ) × ((bh_hbm_work_fn (queue_hbm (queue_hbm i m) n)).0 ≡ some b)
      × (take (length m) b ≡ m)
      × IsQueue (bh_hbm_work_fn (queue_hbm (queue_hbm i m) n)).1 (n ∷ [])
      × ((bh_hbm_work_fn (queue_hbm (queue_hbm i m) n)).1.bh_hbm_work ≡ false)
second_message_waits i m n q f g =
    let one = queued i [] m q f (omega arith) in
    let two = queued (queue_hbm i m) (m ∷ []) n one g (omega arith) in
    let (b, e, begins, left) = took (queue_hbm (queue_hbm i m) n) m (n ∷ []) two in
    (b, e, begins, left, work_done (queue_hbm (queue_hbm i m) n))
