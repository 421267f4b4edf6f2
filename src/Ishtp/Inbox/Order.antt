-- ===== src/Ishtp/Inbox/Order.antt =====
-- What the queue of received bus messages promises, src/intel-ish-hid-linux-6.5/ishtp/hbm.c.
use ubuntu_elkhart_lake_pse.Prelude.{
  ℕ, sym, ◌≤◌, ◌≡◌, refl, List, [], ◌∷◌, ◌++◌, Option, none, some, arith, ltb, if◌then◌else◌,
  length, take, Bool-cases, inl, inr, ltb→lt,
}
use mathlib.Core.Path.{subst}
use ubuntu_elkhart_lake_pse.Ishtp.Inbox.{Inbox, queue_hbm, bh_hbm_work_fn, clear_inbox}
use ubuntu_elkhart_lake_pse.Ishtp.Inbox.Blocks.{IsQueue, queued, dropped, took, idle}

-- What happens to the queue: a message arrives, the work runs, or the firmware is reset.
pub data Event : Type 0 where
  arrived : List ℕ → Event
  worked : Event
  reset : Event

abbrev emit : Option (List ℕ) → List (List ℕ) → List (List ℕ)
emit none rest = rest
emit (some b) rest = b ∷ rest

-- The messages that are dispatched, as the code fetches them.
unfoldable pub dispatched : Inbox → List Event → List (List ℕ)
dispatched i [] = []
dispatched i (arrived m ∷ es) = dispatched (queue_hbm i m) es
dispatched i (worked ∷ es) = emit (bh_hbm_work_fn i).0 (dispatched (bh_hbm_work_fn i).1 es)
dispatched i (reset ∷ es) = dispatched (clear_inbox i) es

-- The messages that a queue of 63 places would hand out.
unfoldable pub expected : List (List ℕ) → List Event → List (List ℕ)
expected q [] = []
expected q (arrived m ∷ es) = expected (if ltb (length q) 63 then q ++ m ∷ [] else q) es
expected [] (worked ∷ es) = expected [] es
expected (m ∷ q) (worked ∷ es) = m ∷ expected q es
expected q (reset ∷ es) = expected [] es

-- What was fetched begins with the message, one after the other.
pub data Begin : List (List ℕ) → List (List ℕ) → Type 0 where
  end : Begin [] []
  next :
      {b m : List ℕ} {bs ms : List (List ℕ)}
      → take (length m) b ≡ m
      → Begin bs ms
      → Begin (b ∷ bs) (m ∷ ms)

-- No message is longer than a block.
abbrev pub Fit : List Event → Type 0
Fit [] = Unit {0}
Fit (arrived m ∷ es) = (length m ≤ 128) × Fit es
Fit (worked ∷ es) = Fit es
Fit (reset ∷ es) = Fit es

cleared : (i : Inbox) (q : List (List ℕ)) → IsQueue i q → IsQueue (clear_inbox i) []
unfolding clear_inbox
cleared i q h = record {
  block = refl;
  inside = omega arith;
  bounded = omega arith;
  end = refl;
  stored = tt;
}

-- In whatever order messages of at most 128 bytes arrive, the work runs and the firmware is reset, the
-- messages that are dispatched are those of a bounded queue of 63 places: in the order of arrival, each
-- once and with its bytes, but for those that came when the queue was full or were in it at a reset.
pub dispatched_lem :
    (i : Inbox) (q : List (List ℕ)) (es : List Event)
    → IsQueue i q
    → Fit es
    → Begin (dispatched i es) (expected q es)
unfolding dispatched expected
dispatched_lem i q [] h f = end
dispatched_lem i q (arrived m ∷ es) h f = elim (Bool-cases (ltb (length q) 63)) [
  | inl room ↦
      rw room
        (dispatched_lem (queue_hbm i m) (q ++ m ∷ []) es (queued i q m h f.0 (ltb→lt _ _ room)) f.1)
  | inr full ↦
      rw (full, dropped i q m h (ground (arith, h.bounded, full))) (dispatched_lem i q es h f.1)
]
dispatched_lem i [] (worked ∷ es) h f =
    let (e, h') = idle i h in
    let rest = dispatched_lem (bh_hbm_work_fn i).1 [] es h' f in
    subst (λ o. Begin (emit o (dispatched (bh_hbm_work_fn i).1 es)) (expected [] es)) (sym e) rest
dispatched_lem i (m ∷ q) (worked ∷ es) h f =
    let (b, e, begins, h') = took i m q h in
    let rest = dispatched_lem (bh_hbm_work_fn i).1 q es h' f in
    subst (λ o. Begin (emit o (dispatched (bh_hbm_work_fn i).1 es)) (m ∷ expected q es)) (sym e)
      (next begins rest)
dispatched_lem i q (reset ∷ es) h f = dispatched_lem (clear_inbox i) [] es (cleared i q h) f
