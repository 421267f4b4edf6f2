-- ===== src/Ishtp/Inbox.antt =====
-- The queue of received bus messages, src/intel-ish-hid-linux-6.5/ishtp/hbm.c: its end in `recv_hbm`, which an
-- interrupt runs, and `bh_hbm_work_fn`, the work that takes a message out; and ishtp/bus.c, which
-- empties it. A work that is scheduled once more before it runs, runs once.
pub mod Blocks
pub mod Order
pub mod Stuck
use ubuntu_elkhart_lake_pse.Prelude.{
  ℕ, zero, suc, ◌+◌, ◌-◌, ◌%◌, Bool, true, false, not, ◌&&◌, List, [], ◌∷◌, Option, none, some, ltb,
  leb, ◌==◌, if◌then◌else◌, get_or, length,
}

-- IPC_PAYLOAD_SIZE, and RD_INT_FIFO_SIZE of these.
abbrev pub ipc_payload_size : ℕ
ipc_payload_size = 128

abbrev pub fifo_size : ℕ
fifo_size = 8192

-- The bytes of the queue by their place, and whether the work is scheduled.
pub record Inbox : Type 0 where
  pub rd_msg_fifo : ℕ → ℕ
  pub rd_msg_fifo_head : ℕ
  pub rd_msg_fifo_tail : ℕ
  pub bh_hbm_work : Bool

-- `memcpy` of a message to a place in the queue.
unfoldable pub store : (ℕ → ℕ) → ℕ → List ℕ → ℕ → ℕ
store fifo at msg a =
    if leb at a && ltb (a - at) (length msg) then get_or msg (a - at) 0 else fifo a

-- `memcpy` of some bytes from a place in the queue.
unfoldable pub fetch : (ℕ → ℕ) → ℕ → ℕ → List ℕ
fetch fifo at zero = []
fetch fifo at (suc n) = fifo at ∷ fetch fifo (at + 1) n

-- The end of `recv_hbm`: a message for which there is no room is dropped.
unfoldable pub queue_hbm : Inbox → List ℕ → Inbox
unfolding store
queue_hbm i msg =
    if (i.rd_msg_fifo_tail + ipc_payload_size) % fifo_size == i.rd_msg_fifo_head
    then i
    else record {
      rd_msg_fifo = store i.rd_msg_fifo i.rd_msg_fifo_tail msg;
      rd_msg_fifo_head = i.rd_msg_fifo_head;
      rd_msg_fifo_tail = (i.rd_msg_fifo_tail + ipc_payload_size) % fifo_size;
      bh_hbm_work = true;
    }

-- The work, with the message that it gives to `ishtp_hbm_dispatch`.
unfoldable pub bh_hbm_work_fn : Inbox → Option (List ℕ) × Inbox
unfolding fetch
bh_hbm_work_fn i =
    let running = record i { bh_hbm_work = false } in
    if not (i.rd_msg_fifo_head == i.rd_msg_fifo_tail)
    then (
      some (fetch i.rd_msg_fifo i.rd_msg_fifo_head ipc_payload_size),
      record running { rd_msg_fifo_head = (i.rd_msg_fifo_head + ipc_payload_size) % fifo_size },
    )
    else (none, running)

-- In `ishtp_reset_handler`.
unfoldable pub clear_inbox : Inbox → Inbox
clear_inbox i = record i { rd_msg_fifo_head = 0; rd_msg_fifo_tail = 0 }
