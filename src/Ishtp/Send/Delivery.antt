-- ===== src/Ishtp/Send/Delivery.antt =====
-- `ishtp_cl_send` over IPC, end to end.
use ubuntu_elkhart_lake_pse.Prelude.{
  ℕ, suc, ◌-◌, ◌*◌, ◌≤◌, ◌<◌, ◌≡◌, refl, ap, ◌∙◌, true, false, not, ◌&&◌, List, [], ◌∷◌, ◌++◌,
  arith, length, take, memcpy, take-memcpy, length-memcpy, some, incr32,
}
use ubuntu_elkhart_lake_pse.Ishtp.Types.{
  ok, enabled, cl_connected, path_ipc, is_path_dma, FwClient, TxBuf, Frame, Client, Sys,
}
use ubuntu_elkhart_lake_pse.Ishtp.Ipc.Queue.{submitted}
use ubuntu_elkhart_lake_pse.Ishtp.Send.{
  TxLoop, tx_loop, start_sending, transmit, ipc_tx_send, ishtp_cl_send_msg_ipc, ishtp_cl_send_msg,
  ishtp_fw_cl_by_id, queue_message, ishtp_cl_send,
}
use ubuntu_elkhart_lake_pse.Ishtp.Send.Fragments.{reassemble, Addressed, Sent, tx_loop-Sent}

-- A connected client on an enabled device that has a credit and nothing to send, and a free buffer
-- `m` of `fw.max_msg_length` bytes; the IPC path is taken, and no DMA message waits for its ack.
pub record IsReady (s : Sys) (fw : FwClient) (m : TxBuf) (rest : List TxBuf) (block : List ℕ)
    : Type 0 where
  pub connected : s.cl.state ≡ cl_connected
  pub enabled_dev : s.dev.dev_state ≡ enabled
  pub known : ishtp_fw_cl_by_id s.dev.fw_clients s.cl.fw_client_id ≡ some fw
  pub buffer : s.cl.tx_free_list ≡ m ∷ rest
  pub allocated : m.content ≡ some block
  pub large : fw.max_msg_length ≤ length block
  pub nothing_queued : s.cl.tx_list ≡ []
  pub credit : s.cl.ishtp_flow_ctrl_creds ≡ 1
  pub idle : s.cl.sending ≡ false
  pub path : is_path_dma s.dev.transfer_path ≡ false
  pub acked : is_path_dma s.cl.last_tx_path && not s.cl.last_dma_acked ≡ false
  pub mtu_pos : 0 < s.dev.mtu
  pub mtu_max : s.dev.mtu ≤ 124

module _ (s : Sys) (fw : FwClient) (m : TxBuf) (rest : List TxBuf) (block buf : List ℕ)
    (n : ℕ) where
  -- The buffer with the message in it, and the client when the message is queued and taken up.
  abbrev pub filled : TxBuf
  filled = record m { content = some (memcpy block buf n); size = n }

  abbrev pub queued : Client
  queued = record (s.cl) {
    tx_free_list = rest;
    tx_ring_free_size = s.cl.tx_ring_free_size - 1;
    tx_list = [];
    tx_offs = 0;
    ishtp_flow_ctrl_creds = 0;
    last_ipc_acked = false;
    last_tx_path = path_ipc;
    sending = true;
  }

  abbrev counted : Sys → Sys
  counted t = record t { cl = record (t.cl) { send_msg_cnt_ipc = incr32 t.cl.send_msg_cnt_ipc } }

  send-transmit :
      IsReady s fw m rest block
      → n ≤ fw.max_msg_length
      → ishtp_cl_send s buf n
        ≡ (ok 0, counted (transmit s.dev (record queued { tx_list = filled ∷ [] }) filled []))
  unfolding ishtp_cl_send queue_message ishtp_cl_send_msg ishtp_cl_send_msg_ipc ipc_tx_send
      start_sending
  send-transmit r h = ground arith

  -- The message is on its way whole, and the client is as before with one credit less.
  pub record Delivered (t : Sys) : Type 0 where
    pub frames : List Frame
    pub appended : submitted t.dev.ipc ≡ submitted s.dev.ipc ++ frames
    pub whole : reassemble [] frames ≡ take n buf ∷ []
    pub addressed : Addressed s.cl.host_client_id s.cl.fw_client_id s.dev.mtu frames
    pub returned : t.cl.tx_free_list ≡ rest ++ filled ∷ []
    pub emptied : t.cl.tx_list ≡ []
    pub unsent : t.cl.sending ≡ false
    pub spent : t.cl.ishtp_flow_ctrl_creds ≡ 0
    pub device : t.dev ≡ record (s.dev) { ipc = t.dev.ipc }

  transmitted : Sys
  transmitted = counted (transmit s.dev (record queued { tx_list = filled ∷ [] }) filled [])

  transmitted-Delivered :
      IsReady s fw m rest block
      → 0 < n
      → n ≤ length block
      → n ≤ length buf
      → n ≤ s.dev.ipc.wr_free_list * s.dev.mtu
      → Delivered transmitted
  unfolding transmitted transmit
  transmitted-Delivered r p h k e = record {
    frames = sent.frames;
    appended = sent.appended;
    whole = sent.whole ∙ ap (λ l. l ∷ []) (take-memcpy block buf n k);
    addressed = sent.addressed;
    returned = refl;
    emptied = refl;
    unsent = sent.idle;
    spent = refl;
    device = sent.device;
  }
    where
      start : TxLoop
      start = record { dev = s.dev; tx_offs = 0; sending = true }

      sent : Sent s.cl.host_client_id s.cl.fw_client_id [] (take n (memcpy block buf n)) start (
          tx_loop
            (suc (n - 0))
            s.cl.host_client_id
            s.cl.fw_client_id
            (memcpy block buf n)
            n
            (n - 0)
            start)
      sent =
          let exact : n - 0 ≡ n = omega arith in
          rw exact (
            tx_loop-Sent s.cl.host_client_id s.cl.fw_client_id n (memcpy block buf n) (suc n) n []
              start (omega arith) p (omega arith) (omega (arith, length-memcpy block buf n h k))
              r.mtu_pos r.mtu_max e)

  -- A message of 1 to `max_msg_length` bytes that a ready client sends, with a free queue entry for
  -- each fragment, is accepted; the frames submitted for it carry exactly the first `n` bytes of the
  -- caller's buffer to the client's peer, as one message, in fragments of at most `mtu` bytes; the
  -- buffer is back on the free list, nothing is queued, the credit is used up, and of the device only
  -- the IPC queue has changed.
  pub ishtp_cl_send_delivers :
      IsReady s fw m rest block
      → 0 < n
      → n ≤ fw.max_msg_length
      → n ≤ length buf
      → n ≤ s.dev.ipc.wr_free_list * s.dev.mtu
      → ((ishtp_cl_send s buf n).0 ≡ ok 0) × Delivered (ishtp_cl_send s buf n).1
  unfolding transmitted
  ishtp_cl_send_delivers r p h k e =
      rw (send-transmit r h) (refl, transmitted-Delivered r p (omega (arith, r.large)) k e)
