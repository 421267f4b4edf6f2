-- ===== src/Tests/Inbox.antt =====
-- The queue of received bus messages, with its head in the last block.
use ubuntu_elkhart_lake_pse.Prelude.{ℕ, refl, false, List, [], ◌∷◌, arith}
use ubuntu_elkhart_lake_pse.Ishtp.Inbox.{Inbox}
use ubuntu_elkhart_lake_pse.Ishtp.Inbox.Blocks.{IsQueue}
use ubuntu_elkhart_lake_pse.Ishtp.Inbox.Order.{
  Event, arrived, worked, reset, Begin, dispatched, expected, dispatched_lem,
}

abbrev empty_inbox : Inbox
empty_inbox = record {
  rd_msg_fifo = λ a. 0;
  rd_msg_fifo_head = 8064;
  rd_msg_fifo_tail = 8064;
  bh_hbm_work = false;
}

empty_inbox_lem : IsQueue empty_inbox []
empty_inbox_lem = record {
  block = refl;
  inside = omega arith;
  bounded = omega arith;
  end = refl;
  stored = tt;
}

abbrev first : List ℕ
first = 0x81 ∷ 1 ∷ []

abbrev second : List ℕ
second = 0x84 ∷ 0 ∷ 0 ∷ []

abbrev events : List Event
events =
    arrived first ∷ arrived second ∷ worked ∷ worked ∷ worked ∷ arrived first ∷ reset ∷ worked ∷ []

dispatched_lem_example : Begin (dispatched empty_inbox events) (expected [] events)
dispatched_lem_example =
    dispatched_lem empty_inbox [] events empty_inbox_lem
      (omega arith, (omega arith, (omega arith, tt)))
