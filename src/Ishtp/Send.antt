-- ===== src/Ishtp/Send.antt =====
-- Sending a client message, src/intel-ish-hid-linux-6.5/ishtp/client.c: over IPC in fragments of at
-- most `mtu` bytes, or over DMA.
pub mod Fragments
pub mod Delivery
pub mod Pool
use ubuntu_elkhart_lake_pse.Prelude.{
  ℕ, zero, suc, ◌+◌, ◌-◌, ◌*◌, ◌/◌, ◌%◌, Bool, true, false, not, ◌&&◌, ◌||◌, List, [], ◌∷◌, ◌++◌,
  Option, none, some, ltb, leb, ◌==◌, if◌then◌else◌, get_or, drop, length, memcpy, incr32, decr8,
}
use ubuntu_elkhart_lake_pse.Prelude.Bytes.{le_bytes}
use ubuntu_elkhart_lake_pse.Ishtp.Types.{
  Errno, Code, ok, err, enodev, enoent, epipe, emsgsize, enomem, eio, is_enabled, is_connected,
  MsgHdr, FwClient, TxBuf, path_default, path_ipc, path_dma, is_path_dma, is_path_ipc,
  is_path_default, Client, Device, Sys,
}
use ubuntu_elkhart_lake_pse.Ishtp.Ipc.{ishtp_write_message}
use ubuntu_elkhart_lake_pse.Ishtp.Dma.{ishtp_cl_get_dma_send_buf}
use ubuntu_elkhart_lake_pse.Ishtp.Hbm.{ishtp_hbm_hdr}

-- What the loop of `ipc_tx_send` changes.
pub record TxLoop : Type 0 where
  pub dev : Device
  pub tx_offs : ℕ
  pub sending : Bool

-- The header of a fragment; `length` is a bit field of nine bits.
unfoldable pub fragment_hdr : ℕ → ℕ → ℕ → Bool → MsgHdr
fragment_hdr host fw length complete = record {
  fw_addr = fw;
  host_addr = host;
  length = length % 512;
  reserved = 0;
  msg_complete = complete;
}

-- The last fragment, or the only one. The result of `ishtp_write_message` is ignored.
unfoldable pub last_fragment : ℕ → ℕ → List ℕ → ℕ → TxLoop → TxLoop
unfolding fragment_hdr
last_fragment host fw block rem s = record s {
  dev = (ishtp_write_message s.dev (fragment_hdr host fw rem true) (drop s.tx_offs block)).1;
  tx_offs = 0;
  sending = false;
}

-- A fragment before the last.
unfoldable pub next_fragment : ℕ → ℕ → List ℕ → TxLoop → TxLoop
unfolding fragment_hdr
next_fragment host fw block s = record s {
  dev = (ishtp_write_message s.dev (fragment_hdr host fw s.dev.mtu false) (drop s.tx_offs block)).1;
  tx_offs = s.tx_offs + s.dev.mtu;
}

-- `while (rem > 0)` with fuel.
unfoldable pub tx_loop : ℕ → ℕ → ℕ → List ℕ → ℕ → ℕ → TxLoop → TxLoop
unfolding last_fragment next_fragment
tx_loop zero host fw block size rem s = s
tx_loop (suc fuel) host fw block size rem s = elim (rem == 0) [
  | true ↦ s
  | false ↦ elim (leb rem s.dev.mtu) [
    | true ↦ last_fragment host fw block rem s
    | false ↦
        tx_loop fuel host fw block size (size - (s.tx_offs + s.dev.mtu))
          (next_fragment host fw block s)
  ]
]

abbrev pub bytes_of : Option (List ℕ) → List ℕ
bytes_of none = []
bytes_of (some block) = block

-- The client when the loop starts: a new message takes the flow control credit.
unfoldable pub start_sending : Client → Client
start_sending cl = if cl.sending then cl else record cl {
  ishtp_flow_ctrl_creds = decr8 cl.ishtp_flow_ctrl_creds;
  last_ipc_acked = false;
  last_tx_path = path_ipc;
  sending = true;
}

-- The loop over the head of `tx_list`, and the return of its buffer to the free list.
unfoldable pub transmit : Device → Client → TxBuf → List TxBuf → Sys
transmit dev cl cl_msg rest =
    let rem = cl_msg.size - cl.tx_offs in
    let done =
      tx_loop (suc rem) cl.host_client_id cl.fw_client_id (bytes_of cl_msg.content) cl_msg.size rem
        (record { dev = dev; tx_offs = cl.tx_offs; sending = cl.sending }) in
    record {
      dev = done.dev;
      cl = record cl {
        tx_offs = done.tx_offs;
        sending = done.sending;
        tx_list = rest;
        tx_free_list = cl.tx_free_list ++ cl_msg ∷ [];
        tx_ring_free_size = cl.tx_ring_free_size + 1;
      };
    }

-- `tx_offs` is 0 at the only call, so the `size_t` subtraction of it is exact.
unfoldable pub ipc_tx_send : Sys → Sys
unfolding start_sending
ipc_tx_send s =
    if not (is_enabled s.dev.dev_state) || not (is_connected s.cl.state)
    then s
    else elim s.cl.tx_list [
      | [] ↦ s
      | cl_msg ∷ rest ↦
          if not (s.cl.ishtp_flow_ctrl_creds == 1) && not s.cl.sending
          then s
          else transmit s.dev (start_sending s.cl) cl_msg rest
    ]

unfoldable pub ishtp_cl_send_msg_ipc : Sys → Sys
ishtp_cl_send_msg_ipc s =
    if is_path_dma s.cl.last_tx_path && not s.cl.last_dma_acked
    then s
    else (let sent = ipc_tx_send (record s { cl = record (s.cl) { tx_offs = 0 } }) in
        record sent {
          cl = record (sent.cl) { send_msg_cnt_ipc = incr32 sent.cl.send_msg_cnt_ipc };
        })

-- `memcpy` of `n` bytes into the DMA buffer at an offset.
unfoldable pub write_mem : (ℕ → ℕ) → ℕ → List ℕ → ℕ → ℕ → ℕ
write_mem mem off src n a = if leb off a && ltb a (off + n) then get_or src (a - off) 0 else mem a

-- `struct dma_xfer_hbm`: command DMA_XFER, the two client ids, the physical address and the length.
unfoldable pub dma_xfer : Device → Client → ℕ → ℕ → List ℕ
unfolding le_bytes
dma_xfer dev cl off size =
    0x12
    ∷ cl.fw_client_id
    ∷ cl.host_client_id
    ∷ 0
    ∷ (le_bytes 8 (dev.dma_tx_buf_phys + off) ++ (le_bytes 4 size ++ le_bytes 4 0))

-- The message is copied to the slots found, and its address is sent over IPC.
unfoldable pub dma_transmit : Sys → TxBuf → List TxBuf → ℕ → Sys
unfolding write_mem dma_xfer ishtp_hbm_hdr
dma_transmit s cl_msg rest msg_addr =
    let dev = record (s.dev) {
      dma_tx_mem = write_mem s.dev.dma_tx_mem msg_addr (bytes_of cl_msg.content) cl_msg.size;
    } in
    record {
      dev = (ishtp_write_message dev (ishtp_hbm_hdr 20) (dma_xfer dev s.cl msg_addr cl_msg.size)).1;
      cl = record (s.cl) {
        tx_list = rest;
        ishtp_flow_ctrl_creds = decr8 s.cl.ishtp_flow_ctrl_creds;
        last_dma_acked = false;
        last_dma_addr = some msg_addr;
        last_tx_path = path_dma;
        tx_free_list = s.cl.tx_free_list ++ cl_msg ∷ [];
        tx_ring_free_size = s.cl.tx_ring_free_size + 1;
        send_msg_cnt_dma = incr32 s.cl.send_msg_cnt_dma;
      };
    }

unfoldable pub dma_or_ipc : Sys → TxBuf → List TxBuf → Option ℕ × Device → Sys
unfolding dma_transmit ishtp_cl_send_msg_ipc
dma_or_ipc s cl_msg rest (none, dev) =
    if is_path_default s.dev.transfer_path then ishtp_cl_send_msg_ipc s else s
dma_or_ipc s cl_msg rest (some msg_addr, dev) =
    dma_transmit (record s { dev = dev }) cl_msg rest msg_addr

unfoldable pub ishtp_cl_send_msg_dma : Sys → Sys
unfolding dma_or_ipc
ishtp_cl_send_msg_dma s =
    if is_path_ipc s.cl.last_tx_path && not s.cl.last_ipc_acked then s else elim s.cl.tx_list [
      | [] ↦ s
      | cl_msg ∷ rest ↦ dma_or_ipc s cl_msg rest (ishtp_cl_get_dma_send_buf s.dev cl_msg.size)
    ]

unfoldable pub ishtp_cl_send_msg : Sys → Sys
ishtp_cl_send_msg s =
    if is_path_dma s.dev.transfer_path then ishtp_cl_send_msg_dma s else ishtp_cl_send_msg_ipc s

-- `ishtp_fw_cl_by_id` of bus.c: the first firmware client with this id.
unfoldable pub ishtp_fw_cl_by_id : List FwClient → ℕ → Option FwClient
ishtp_fw_cl_by_id [] client_id = none
ishtp_fw_cl_by_id (c ∷ cs) client_id =
    if c.client_id == client_id then some c else ishtp_fw_cl_by_id cs client_id

-- `++cl->err_send_msg` and the error.
unfoldable pub send_error : Errno → Sys → Code × Sys
send_error e s =
    (err e, record s { cl = record (s.cl) { err_send_msg = incr32 s.cl.err_send_msg } })

-- The message takes a free buffer and is queued; it is sent at once if it is the only one and there
-- is a credit.
unfoldable pub queue_message : Sys → TxBuf → List TxBuf → List ℕ → List ℕ → ℕ → Code × Sys
queue_message s cl_msg rest block buf n =
    let filled = record cl_msg { content = some (memcpy block buf n); size = n } in
    let have_msg_to_send = not (length s.cl.tx_list == 0) in
    let queued = record s {
      cl = record (s.cl) {
        tx_free_list = rest;
        tx_ring_free_size = s.cl.tx_ring_free_size - 1;
        tx_list = s.cl.tx_list ++ filled ∷ [];
      };
    } in
    (
      ok 0,
      if not have_msg_to_send && ltb 0 s.cl.ishtp_flow_ctrl_creds
          then ishtp_cl_send_msg queued
          else queued,
    )

-- `buf` and `n` are the caller's buffer and length. `tx_ring_free_size` is the length of the free
-- list, so it is not 0 where it is decremented.
unfoldable pub ishtp_cl_send : Sys → List ℕ → ℕ → Code × Sys
unfolding queue_message send_error
ishtp_cl_send s buf n =
    if not (is_connected s.cl.state)
    then send_error epipe s
    else if not (is_enabled s.dev.dev_state)
    then send_error enodev s
    else elim (ishtp_fw_cl_by_id s.dev.fw_clients s.cl.fw_client_id) [
      | none ↦ send_error enoent s
      | some fw ↦
          if ltb fw.max_msg_length n then send_error emsgsize s else elim s.cl.tx_free_list [
            | [] ↦ send_error enomem s
            | cl_msg ∷ rest ↦ elim cl_msg.content [
              | none ↦ (err eio, s)
              | some block ↦ queue_message s cl_msg rest block buf n
            ]
          ]
    ]
