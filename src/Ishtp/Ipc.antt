-- ===== src/Ishtp/Ipc.antt =====
-- The transmit queue of the IPC layer, src/intel-ish-hid-linux-6.5/ipc/ipc.c, and the functions of
-- ishtp/bus.c that put a message on it. Every caller in the tree passes a NULL completion callback,
-- which is left out. The time in a clock message (MNG_SYNC_FW_CLOCK) stays as it was queued.
pub mod Queue
use ubuntu_elkhart_lake_pse.Prelude.{
  ℕ, ◌+◌, ◌-◌, ◌*◌, ◌/◌, ◌%◌, Bool, true, false, not, List, [], ◌∷◌, ◌++◌, ltb, ◌==◌, if◌then◌else◌,
  take, incr32,
}
use ubuntu_elkhart_lake_pse.Ishtp.Types.{
  Code, ok, err, emsgsize, enomem, einval, ebusy, DevState, is_disabled, MsgHdr, Frame, Ipc, Device,
}

abbrev pub ipc_full_msg_size : ℕ
ipc_full_msg_size = 132

-- IPC_IS_BUSY: bit 31 of the doorbell word.
abbrev pub is_busy : ℕ → Bool
is_busy drbl = (drbl / 2147483648) % 2 == 1

-- IPC_BUILD_HEADER with protocol IPC_PROTOCOL_ISHTP (1 << 10) and the busy bit.
unfoldable pub ipc_get_header : ℕ → ℕ
ipc_get_header length = 2147483648 + 1024 + length

ish_is_input_ready : Ipc → Bool
ish_is_input_ready q = not (is_busy q.host2ish_drbl)

-- The head of the processing list goes to the hardware and its entry back to the free list.
unfoldable pub write_first : List Frame → Ipc → Ipc
write_first [] q = q
write_first (f ∷ rest) q = record q {
  wr_processing_list = rest;
  wr_free_list = q.wr_free_list + 1;
  wire = q.wire ++ f ∷ [];
  host2ish_drbl = f.doorbell;
  ipc_tx_cnt = incr32 q.ipc_tx_cnt;
}

unfoldable pub write_ipc_from_queue : DevState → Ipc → Code × Ipc
unfolding ish_is_input_ready write_first
write_ipc_from_queue state q =
    if is_disabled state
    then (err einval, q)
    else if not (ish_is_input_ready q)
    then (err ebusy, q)
    else (ok 0, write_first q.wr_processing_list q)

-- An entry is taken off the free list, filled and queued; the result of the first write is ignored.
unfoldable pub write_ipc_to_queue : DevState → Ipc → Frame → ℕ → Code × Ipc
write_ipc_to_queue state q f length =
    if ltb ipc_full_msg_size length
    then (err emsgsize, q)
    else if q.wr_free_list == 0
    then (err enomem, q)
    else (
      ok 0,
      (write_ipc_from_queue state (record q {
        wr_free_list = q.wr_free_list - 1;
        wr_processing_list = q.wr_processing_list ++ f ∷ [];
      })).1,
    )

-- What `ishtp_send_msg` assembles.
unfoldable pub ipc_msg : MsgHdr → List ℕ → Frame
unfolding ipc_get_header
ipc_msg hdr msg = record {
  doorbell = ipc_get_header (hdr.length + 4);
  hdr = hdr;
  payload = take hdr.length msg;
}

-- Through `dev->ops->write`; the header and the doorbell take four bytes each.
unfoldable pub ishtp_send_msg : DevState → Ipc → MsgHdr → List ℕ → Code × Ipc
unfolding write_ipc_to_queue write_ipc_from_queue ish_is_input_ready write_first ipc_msg
ishtp_send_msg state q hdr msg = write_ipc_to_queue state q (ipc_msg hdr msg) (8 + hdr.length)

-- Of the device only the queue changes.
abbrev pub ishtp_write_message : Device → MsgHdr → List ℕ → Code × Device
ishtp_write_message dev hdr msg =
    let (rv, q) = ishtp_send_msg dev.dev_state dev.ipc hdr msg in (rv, record dev { ipc = q })
