-- ===== src/Ishtp/Reset/Clean.antt =====
-- What a reset of the firmware leaves of the driver's messages, src/intel-ish-hid-linux-6.5/ipc/ipc.c,
-- `ish_fw_reset_handler`.
use mathlib.Core.Path.{subst}
use ubuntu_elkhart_lake_pse.Prelude.{
  ℕ, ◌+◌, ◌%◌, ◌<◌, ◌≡◌, ◌⊎◌, refl, ap, ◌∙◌, sym, Bool-cases, true, false, List, [], ◌∷◌, ◌++◌,
  Option, none, some, arith, inl, inr, length, if◌then◌else◌,
}
use ubuntu_elkhart_lake_pse.Prelude.Bytes.{le_bytes}
use ubuntu_elkhart_lake_pse.Ishtp.Types.{
  cl_disconnected, DevState, is_disabled, Rb, Code, ok, err, epipe, enodev, resetting, Frame, Ipc,
  World, Client,
}
use ubuntu_elkhart_lake_pse.Ishtp.Ipc.{
  is_busy, write_ipc_to_queue, write_ipc_from_queue, write_first,
}
use ubuntu_elkhart_lake_pse.Ishtp.Ipc.Queue.{entries}
use ubuntu_elkhart_lake_pse.Ishtp.Link.{
  keep_rb, same_client, ishtp_cl_cmp_id, ishtp_read_list_flush,
}
use ubuntu_elkhart_lake_pse.Ishtp.Rings.{ishtp_cl_free_rx_ring, ishtp_cl_free_tx_ring}
use ubuntu_elkhart_lake_pse.Ishtp.Recv.{update}
use ubuntu_elkhart_lake_pse.Ishtp.Recv.Safety.{AllLive}
use ubuntu_elkhart_lake_pse.Ishtp.Startup.{
  clear, Startup, disband, disband_all, ishtp_bus_remove_all_clients,
}
use ubuntu_elkhart_lake_pse.Ishtp.Inbox.{clear_inbox}
use ubuntu_elkhart_lake_pse.Ishtp.Startup.Responses.{ishtp_reset_handler}
use ubuntu_elkhart_lake_pse.Ishtp.Transfer.{world_of}
use ubuntu_elkhart_lake_pse.Ishtp.Interrupt.Alive.{
  IsAlive, AllThere, update-IsAlive, update-AllThere, update-AllLive,
}
use ubuntu_elkhart_lake_pse.Ishtp.Interrupt.Live.{IsLive}
use ubuntu_elkhart_lake_pse.Ishtp.Interrupt.{mng_frame, ipc_send_mng_msg}
use ubuntu_elkhart_lake_pse.Ishtp.Reset.{
  Firmware, Host, dev_of, put_dev, splice, notify_reset, after_wait, acknowledge, answer_reset,
  with_bus_reset, ish_set_host_rdy, answered_by, ish_fw_reset_handler,
}

-- The flush keeps buffers of clients in memory.
flush-AllLive :
    (heap : ℕ → Option Client) (cl : Client) (rs : List Rb)
    → AllLive heap rs
    → (rs' : List Rb) × (ishtp_read_list_flush heap cl rs ≡ some rs') × AllLive heap rs'
unfolding ishtp_read_list_flush same_client keep_rb
flush-AllLive heap cl [] a = ([], refl, tt)
flush-AllLive heap cl (r ∷ rs) (inl n, a) =
    let (rs', e, b) = flush-AllLive heap cl rs a in (r ∷ rs', ground arith, (inl n, b))
flush-AllLive heap cl (r ∷ rs) (inr (q, c, d, f), a) =
    let (rs', e, b) = flush-AllLive heap cl rs a in
    elim (Bool-cases (ishtp_cl_cmp_id cl c)) [
      | inl t ↦ (rs', ground arith, b)
      | inr t ↦ (r ∷ rs', ground arith, (inr (q, c, d, f), b))
    ]

-- Giving up the clients changes neither the queue nor the state of the device, and uses no freed memory.
abbrev GivenUp : World → Option World → Type 0
GivenUp w o =
    (w' : World) × (o ≡ some w')
    × IsLive w'
    × (w'.dev.ipc ≡ w.dev.ipc)
    × (w'.dev.dev_state ≡ w.dev.dev_state)
    × ((q : ℕ) → IsAlive w.heap q → IsAlive w'.heap q)

disband-GivenUp : (w : World) (p : ℕ) → IsLive w → IsAlive w.heap p → GivenUp w (disband w p)
unfolding disband
disband-GivenUp w p l (c, e) =
    let cl : Client = record c { state = cl_disconnected } in
    let (rs, f, a) = flush-AllLive w.heap cl w.dev.read_list l.posted in
    let freed = ishtp_cl_free_tx_ring (ishtp_cl_free_rx_ring cl) in
    (
      record { dev = record (w.dev) { read_list = rs }; heap = update w.heap p (some freed) },
      rw (e, disband, f) refl,
      record {
        posted = update-AllLive w.heap p freed rs a;
        listed = update-AllThere w.heap p freed w.dev.cl_list l.listed;
      },
      refl,
      refl,
      λ q h. update-IsAlive w.heap p q freed h,
    )

AllThere-map :
    (heap heap' : ℕ → Option Client) (ps : List ℕ)
    → ((q : ℕ) → IsAlive heap q → IsAlive heap' q)
    → AllThere heap ps
    → AllThere heap' ps
AllThere-map heap heap' [] f a = tt
AllThere-map heap heap' (p ∷ ps) f (x, a) = (f p x, AllThere-map heap heap' ps f a)

disband_all-GivenUp :
    (ps : List ℕ) (w : World) → IsLive w → AllThere w.heap ps → GivenUp w (disband_all ps w)
unfolding disband_all
disband_all-GivenUp [] w l a = (w, refl, l, refl, refl, λ q h. h)
disband_all-GivenUp (p ∷ ps) w l (x, a) =
    let (v, e, m, i, j, k) = disband-GivenUp w p l x in
    let (u, f, n, i', j', k') = disband_all-GivenUp ps v m (AllThere-map w.heap v.heap ps k a) in
    (u, rw (e, disband_all) f, n, i' ∙ i, j' ∙ j, λ q h. k' q (k q h))

-- One message on an empty queue whose input is ready is written at once.
mng_written :
    (state : DevState) (q : Ipc) (f : Frame)
    → is_disabled state ≡ false
    → q.wr_processing_list ≡ []
    → 0 < q.wr_free_list
    → is_busy q.host2ish_drbl ≡ false
    → let r = (write_ipc_to_queue state q f 8).1 in
      (r.wire ≡ q.wire ++ f ∷ []) × (r.wr_processing_list ≡ []) × (entries r ≡ entries q)
unfolding write_ipc_to_queue write_ipc_from_queue write_first
mng_written state q f d e k b = ground arith

-- The bus after the reset: without clients, but with the queue as it was.
bus_reset :
    (b : Startup)
    → IsLive (world_of b)
    → (c : Startup) × (ishtp_reset_handler b ≡ some c)
      × IsLive (world_of c)
      × (c.dev.ipc ≡ b.dev.ipc)
      × (c.dev.dev_state ≡ resetting)
unfolding ishtp_reset_handler ishtp_bus_remove_all_clients
bus_reset b l =
    let dev = record (b.dev) { dev_state = resetting } in
    let w : World = record { dev = dev; heap = b.heap } in
    let (v, e, m, i, j, k) =
      disband_all-GivenUp b.dev.cl_list w (record { posted = l.posted; listed = l.listed })
        l.listed in
    (
      clear true (record b { dev = dev }) v,
      ap
          (λ o. elim o as (λ x. Option Startup) [
            | none ↦ none
            | some w ↦ some (clear true (record b { dev = dev }) w)
          ])
          e,
      record { posted = m.posted; listed = m.listed },
      i,
      j,
    )

-- What came of the firmware's reset.
abbrev pub Recovers : Firmware → Ipc → Code → Host → Type 0
Recovers fw old rv t =
    let ack = mng_frame 4 (le_bytes 4 (fw.reset_id % 65536)) in
    let new = (dev_of t).ipc in
    ((is_busy (after_wait fw (splice old)).host2ish_drbl ≡ true)
      × (rv ≡ err epipe)
      × (new.wire ≡ old.wire))
    ⊎ ((is_busy (after_wait fw (splice old)).host2ish_drbl ≡ false)
        × (rv ≡ (if fw.fw_ready then ok 0 else err enodev))
        × (new.wire ≡ old.wire ++ ack ∷ []))

-- The wait changes the doorbell only.
after_wait-keeps :
    (fw : Firmware) (q : Ipc)
    → ((after_wait fw q).wr_processing_list ≡ q.wr_processing_list)
      × ((after_wait fw q).wr_free_list ≡ q.wr_free_list)
      × ((after_wait fw q).wire ≡ q.wire)
after_wait-keeps fw q = ground arith

-- What is to be shown of a result and a host.
abbrev Answers : Firmware → Ipc → Code × Host → Type 0
Answers fw old (rv, t) =
    IsLive (world_of t.hw.machine.bus)
    × (entries (dev_of t).ipc ≡ entries old)
    × ((dev_of t).ipc.wr_processing_list ≡ [])
    × Recovers fw old rv t

abbrev waited : Firmware → Host → Host
waited fw s = put_dev (record (dev_of s) { ipc = after_wait fw (dev_of s).ipc }) s

abbrev with_ack : Firmware → Host → Host
with_ack fw s =
    put_dev (ipc_send_mng_msg (dev_of s) 4 (le_bytes 4 (fw.reset_id % 65536))).1
      (record s { regs = ish_set_host_rdy s.regs })

acknowledge_eq :
    (fw : Firmware) (s : Host)
    → acknowledge fw s ≡ (if fw.fw_ready then ok 0 else err enodev, with_ack fw s)
unfolding acknowledge
acknowledge_eq fw s = elim (Bool-cases fw.fw_ready) [
  | inl e ↦ rw (e, acknowledge) refl
  | inr e ↦ rw (e, acknowledge) refl
]

-- The answer to a reset, from an empty queue.
answer_reset-Answers :
    (fw : Firmware) (s : Host) (old : Ipc)
    → (dev_of s).ipc ≡ splice old
    → (dev_of s).dev_state ≡ resetting
    → IsLive (world_of s.hw.machine.bus)
    → 0 < entries old
    → Answers fw old (answer_reset fw s)
unfolding answer_reset splice ipc_send_mng_msg
answer_reset-Answers fw s old e d l k =
    let q = after_wait fw (dev_of s).ipc in
    let (a, b, c) = after_wait-keeps fw (dev_of s).ipc in
    let same : q ≡ after_wait fw (splice old) = ap (after_wait fw) e in
    let empty : q.wr_processing_list ≡ [] = a ∙ ap (λ x. x.wr_processing_list) e in
    let free : q.wr_free_list ≡ old.wr_free_list + length old.wr_processing_list =
      b ∙ ap (λ x. x.wr_free_list) e in
    let wire : q.wire ≡ old.wire = c ∙ ap (λ x. x.wire) e in
    let kept : entries q ≡ entries old =
      ap (λ x. length x + q.wr_free_list) empty ∙ omega (arith, free) in
    elim (Bool-cases (is_busy q.host2ish_drbl)) [
      | inl busy ↦
          let at_once : answer_reset fw s ≡ (err epipe, waited fw s) =
            rw (busy, answer_reset) refl in
          subst (Answers fw old) (sym at_once) (
            record { posted = l.posted; listed = l.listed },
            kept,
            empty,
            inl (ap (λ x. is_busy x.host2ish_drbl) (sym same) ∙ busy, refl, wire),
          )
      | inr ready ↦
          let by_ack : answer_reset fw s ≡ acknowledge fw (waited fw s) =
            rw (ready, answer_reset) refl in
          let (sent, done, all) =
            mng_written (dev_of s).dev_state q (mng_frame 4 (le_bytes 4 (fw.reset_id % 65536)))
              (ap is_disabled d) empty (omega (arith, free, k)) ready in
          subst (Answers fw old) (sym (by_ack ∙ acknowledge_eq fw (waited fw s))) (
            record { posted = l.posted; listed = l.listed },
            all ∙ kept,
            done,
            inr (
              ap (λ x. is_busy x.host2ish_drbl) (sym same) ∙ ready,
              refl,
              sent ∙ ap (λ x. x ++ mng_frame 4 (le_bytes 4 (fw.reset_id % 65536)) ∷ []) wire,
            ),
          )
    ]

-- When the firmware resets itself, and all listed clients and the clients of posted buffers are in memory:
-- the handler uses no freed memory, and all is live afterwards; every entry of the transmit queue is
-- kept and the queue is empty, so that no message from before the reset reaches the firmware. If the
-- firmware takes no input, not even after the wait, nothing is sent and the error is -EPIPE; otherwise
-- exactly the acknowledgement, with the firmware's reset id, is sent, and the result is success or, if
-- the firmware does not come up in time, -ENODEV. The queue must have an entry at all.
pub fw_reset-Recovers :
    (fw : Firmware) (s : Host)
    → IsLive (world_of s.hw.machine.bus)
    → 0 < entries (dev_of s).ipc
    → (rv : Code) × (t : Host) × (ish_fw_reset_handler fw s ≡ some (rv, t))
      × IsLive (world_of t.hw.machine.bus)
      × (entries (dev_of t).ipc ≡ entries (dev_of s).ipc)
      × ((dev_of t).ipc.wr_processing_list ≡ [])
      × Recovers fw (dev_of s).ipc rv t
unfolding ish_fw_reset_handler notify_reset splice
fw_reset-Recovers fw s l k =
    let dev = dev_of s in
    let cleared = put_dev (record dev { ipc = splice dev.ipc }) s in
    let b = cleared.hw.machine.bus in
    let (c, e, m, i, j) = bus_reset b (record { posted = l.posted; listed = l.listed }) in
    let t : Host = record cleared {
      hw = record (cleared.hw) {
        machine = record (cleared.hw.machine) {
          bus = c;
          inbox = clear_inbox cleared.hw.machine.inbox;
        };
      };
    } in
    let (n, x, y, z) = answer_reset-Answers fw t dev.ipc i j m k in
    (
      (answer_reset fw t).0,
      (answer_reset fw t).1,
      ap (λ o. answered_by fw (with_bus_reset cleared o)) e,
      n,
      x,
      y,
      z,
    )
