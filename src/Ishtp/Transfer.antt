-- ===== src/Ishtp/Transfer.antt =====
-- Client messages that come by DMA, src/intel-ish-hid-linux-6.5: `recv_ishtp_cl_msg_dma` of ishtp/client.c,
-- and of ishtp/hbm.c the bus messages that announce them and that acknowledge what the driver sent by DMA.
-- The lists of transfers in these messages have 20 bytes for each.
pub mod Paths
pub mod Messages
use ubuntu_elkhart_lake_pse.Prelude.{
  ℕ, zero, suc, ◌+◌, ◌-◌, ◌*◌, ◌/◌, ◌%◌, Bool, true, false, not, ◌&&◌, List, [], ◌∷◌, ◌++◌, Option,
  none, some, ltb, leb, ◌==◌, if◌then◌else◌, get_or, set, take, drop, length, memcpy, incr32, decr8,
}
use ubuntu_elkhart_lake_pse.Prelude.Bytes.{from_le}
use ubuntu_elkhart_lake_pse.Ishtp.Types.{
  Code, ok, err, enomem, eio, MsgHdr, Rb, Client, Device, World, Sys,
}
use ubuntu_elkhart_lake_pse.Ishtp.Ipc.{ishtp_write_message}
use ubuntu_elkhart_lake_pse.Ishtp.Dma.{dma_slot_size, ishtp_cl_release_dma_acked_mem}
use ubuntu_elkhart_lake_pse.Ishtp.Hbm.{ishtp_hbm_hdr}
use ubuntu_elkhart_lake_pse.Ishtp.Rings.{ishtp_cl_io_rb_recycle}
use ubuntu_elkhart_lake_pse.Ishtp.Send.{ishtp_cl_send_msg}
use ubuntu_elkhart_lake_pse.Ishtp.Recv.{
  put_back, update, Found, nobody, fault, hit, find_rb, post_next, ishtp_cl_read_complete,
}
use ubuntu_elkhart_lake_pse.Ishtp.Inbox.{fetch}
use ubuntu_elkhart_lake_pse.Ishtp.Startup.{Startup}

-- `struct dma_xfer_hbm`, without its command and its reserved bytes.
pub record DmaXfer : Type 0 where
  pub fw_client_id : ℕ
  pub host_client_id : ℕ
  pub msg_addr : ℕ
  pub msg_length : ℕ

unfoldable pub xfer_at : List ℕ → ℕ → DmaXfer
unfolding from_le
xfer_at bytes at = record {
  fw_client_id = get_or bytes (at + 1) 0;
  host_client_id = get_or bytes (at + 2) 0;
  msg_addr = from_le (take 8 (drop (at + 4) bytes));
  msg_length = from_le (take 4 (drop (at + 12) bytes));
}

-- The subtraction of 64-bit addresses.
unfoldable pub offset_in : ℕ → ℕ → ℕ
offset_in phys addr = (addr + 18446744073709551616 - phys) % 18446744073709551616

-- Both checks of a transfer: where it starts, and where it ends.
unfoldable pub in_buffer : ℕ → ℕ → ℕ → Bool
in_buffer size offs len = leb offs size && leb len (size - offs)

abbrev pub hdr_of : DmaXfer → MsgHdr
hdr_of x = record {
  fw_addr = x.fw_client_id;
  host_addr = x.host_client_id;
  length = x.msg_length;
  reserved = 0;
  msg_complete = true;
}

-- The message is complete: the buffer `rb` has left the read list.
unfoldable pub complete_dma : Sys → Rb → Sys
unfolding post_next ishtp_cl_read_complete
complete_dma s rb =
    let t = post_next (record s {
      cl = record (s.cl) { status = ok 0; out_flow_ctrl_creds = decr8 s.cl.out_flow_ctrl_creds };
    }) in
    ishtp_cl_read_complete
      (record t {
        cl = record (t.cl) {
          recv_msg_num_frags = incr32 t.cl.recv_msg_num_frags;
          recv_msg_cnt_dma = incr32 t.cl.recv_msg_cnt_dma;
        };
      })
      rb

abbrev pub with_status : Code → Sys → Sys
with_status status s = record s { cl = record (s.cl) { status = status } }

-- The copy of the message, whose bytes are `none` if there is no DMA buffer: a read through NULL.
unfoldable pub copy_dma : Option (List ℕ) → ℕ → List ℕ → Sys → Rb → Option Sys
unfolding complete_dma
copy_dma none n block removed rb = none
copy_dma (some msg) n block removed rb =
    some (complete_dma removed (record rb { content = some (memcpy block msg n); buf_idx = n }))

unfoldable pub deliver_dma : Option (List ℕ) → ℕ → Sys → List Rb → Rb → List Rb → Option Sys
unfolding copy_dma
deliver_dma msg n s pre rb post =
    let removed = record s { dev = record (s.dev) { read_list = pre ++ post } } in
    elim rb.content [
      | none ↦ some (with_status (err enomem) removed)
      | some block ↦
          if rb.size == 0
          then some (with_status (err enomem) removed)
          else if ltb rb.size n
          then some (with_status (err eio) (ishtp_cl_io_rb_recycle removed rb).1)
          else copy_dma msg n block removed rb
    ]

abbrev pub back : World → Option Sys → Option World
back w none = none
back w (some s) = some (put_back w s)

unfoldable pub after_search_dma : World → Option (List ℕ) → ℕ → Found → Option World
unfolding deliver_dma
after_search_dma w msg n nobody = some w
after_search_dma w msg n fault = none
after_search_dma w msg n (hit pre rb cl post) =
    back w (deliver_dma msg n (record { dev = w.dev; cl = cl }) pre rb post)

unfoldable pub recv_ishtp_cl_msg_dma : World → Option (List ℕ) → DmaXfer → Option World
unfolding after_search_dma
recv_ishtp_cl_msg_dma w msg hbm =
    after_search_dma w msg hbm.msg_length (find_rb w.heap (hdr_of hbm) w.dev.read_list)

-- How a walk over the transfers of a message goes on.
pub data Walk : Type 0 where
  access_fault : Walk
  stopped : Startup → Walk
  at_end : Startup → Walk

abbrev pub with_world : Startup → World → Startup
with_world s w = record s { dev = w.dev; heap = w.heap }

abbrev pub world_of : Startup → World
world_of s = record { dev = s.dev; heap = s.heap }

-- The number of rounds of `for (msg_offs = 0; msg_offs < length; msg_offs += 20)`.
abbrev pub rounds_for : ℕ → ℕ
rounds_for length = (length + 19) / 20

-- The bytes of the message, `none` without a DMA Rx buffer.
abbrev pub rx_bytes : (ℕ → ℕ) → Startup → ℕ → ℕ → Option (List ℕ)
rx_bytes rx_mem s offs n = elim s.dma_rx_buf [ none ↦ none | some a ↦ some (fetch rx_mem offs n) ]

abbrev pub received : Startup → Option World → Walk
received s none = access_fault
received s (some w) = at_end (with_world s w)

-- One transfer. What it reads must lie in the 128 bytes of the message buffer.
unfoldable pub xfer_round : (ℕ → ℕ) → List ℕ → ℕ → Startup → Walk
unfolding xfer_at offset_in in_buffer recv_ishtp_cl_msg_dma
xfer_round rx_mem bytes at s =
    let x = xfer_at bytes at in
    let offs = offset_in s.dma_rx_buf_phys x.msg_addr in
    if ltb (length bytes) (at + 16)
    then access_fault
    else if not (in_buffer s.dma_rx_buf_size offs x.msg_length)
    then stopped s
    else received s (recv_ishtp_cl_msg_dma (world_of s) (rx_bytes rx_mem s offs x.msg_length) x)

unfoldable pub xfer_rounds : ℕ → (ℕ → ℕ) → List ℕ → ℕ → Startup → Walk
unfolding xfer_round
xfer_rounds zero rx_mem bytes at s = at_end s
xfer_rounds (suc n) rx_mem bytes at s = elim (xfer_round rx_mem bytes at s) [
  | access_fault ↦ access_fault
  | stopped t ↦ stopped t
  | at_end t ↦ xfer_rounds n rx_mem bytes (at + 20) t
]

-- The same bytes with the command DMA_XFER_ACK in each transfer.
unfoldable pub as_ack : ℕ → ℕ → List ℕ → List ℕ
as_ack zero at bytes = bytes
as_ack (suc n) at bytes = as_ack n (at + 20) (set bytes at 0x92)

abbrev pub acked : ℕ → List ℕ → Walk → Option Startup
acked n bytes access_fault = none
acked n bytes (stopped s) = some s
acked n bytes (at_end s) = some (record s {
  dev = (ishtp_write_message s.dev (ishtp_hbm_hdr n) (as_ack (rounds_for n) 0 bytes)).1;
})

-- A message with a transfer outside the DMA Rx buffer is left at that transfer, with no acknowledgement.
-- `n` is the length in `dev->ishtp_msg_hdr`, `rx_mem` what the DMA Rx buffer holds.
unfoldable pub ishtp_hbm_dma_xfer : ℕ → (ℕ → ℕ) → List ℕ → Startup → Option Startup
unfolding xfer_rounds as_ack ishtp_hbm_hdr
ishtp_hbm_dma_xfer n rx_mem bytes s = acked n bytes (xfer_rounds (rounds_for n) rx_mem bytes 0 s)

-- Whether the last DMA message of a client lies in the acknowledged memory.
abbrev pub within : Option ℕ → ℕ → ℕ → Bool
within none offs n = false
within (some a) offs n = leb offs a && ltb a (offs + n)

-- The client sends on if a message waits and it has a credit.
unfoldable pub dma_acked : Sys → Sys
dma_acked s =
    let t = record s { cl = record (s.cl) { last_dma_acked = true } } in
    if not (length s.cl.tx_list == 0) && not (s.cl.ishtp_flow_ctrl_creds == 0)
    then ishtp_cl_send_msg t
    else t

abbrev pub is_acked : DmaXfer → ℕ → Client → Bool
is_acked x offs c =
    (c.fw_client_id == x.fw_client_id && c.host_client_id == x.host_client_id)
    && within c.last_dma_addr offs x.msg_length

-- The walk over all clients; `none`: one of them is freed.
unfoldable pub ack_clients : DmaXfer → ℕ → List ℕ → World → Option World
unfolding dma_acked
ack_clients x offs [] w = some w
ack_clients x offs (q ∷ qs) w = elim (w.heap q) [
  | none ↦ none
  | some c ↦
      ack_clients x offs qs
        (if is_acked x offs c then put_back w (dma_acked (record { dev = w.dev; cl = c })) else w)
]

-- The slots of an acknowledged message are released, and its client told.
unfoldable pub ack_round : List ℕ → ℕ → Startup → Walk
unfolding xfer_at offset_in in_buffer ack_clients ishtp_cl_release_dma_acked_mem
ack_round bytes at s =
    let x = xfer_at bytes at in
    let offs = offset_in s.dev.dma_tx_buf_phys x.msg_addr in
    if ltb (length bytes) (at + 16)
    then access_fault
    else if not (in_buffer (s.dev.dma_num_slots * dma_slot_size) offs x.msg_length)
    then stopped s
    else received s (
        ack_clients x offs s.dev.cl_list
          (record { dev = ishtp_cl_release_dma_acked_mem s.dev offs x.msg_length; heap = s.heap }))

unfoldable pub ack_rounds : ℕ → List ℕ → ℕ → Startup → Walk
unfolding ack_round
ack_rounds zero bytes at s = at_end s
ack_rounds (suc n) bytes at s = elim (ack_round bytes at s) [
  | access_fault ↦ access_fault
  | stopped t ↦ stopped t
  | at_end t ↦ ack_rounds n bytes (at + 20) t
]

abbrev pub left : Walk → Option Startup
left access_fault = none
left (stopped s) = some s
left (at_end s) = some s

-- The DMA Tx buffer has `dma_num_slots` slots. `n` is the length in `dev->ishtp_msg_hdr`.
unfoldable pub ishtp_hbm_dma_xfer_ack : ℕ → List ℕ → Startup → Option Startup
unfolding ack_rounds
ishtp_hbm_dma_xfer_ack n bytes s = left (ack_rounds (rounds_for n) bytes 0 s)
