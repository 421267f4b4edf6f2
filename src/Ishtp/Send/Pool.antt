-- ===== src/Ishtp/Send/Pool.antt =====
-- The transmit buffers of a client: none is lost or made up on any path, errors included.
use ubuntu_elkhart_lake_pse.Prelude.{
  ℕ, ◌+◌, ◌-◌, ◌≡◌, refl, List, [], ◌∷◌, ◌++◌, arith, length, length-append, memcpy, Option, some,
  none, Option-cases, inl, inr,
}
use ubuntu_elkhart_lake_pse.Ishtp.Types.{Errno, err, TxBuf, Client, Device, Sys}
use ubuntu_elkhart_lake_pse.Ishtp.Dma.{ishtp_cl_get_dma_send_buf}
use ubuntu_elkhart_lake_pse.Ishtp.Send.{
  start_sending, transmit, ipc_tx_send, ishtp_cl_send_msg_ipc, dma_transmit, dma_or_ipc,
  ishtp_cl_send_msg_dma, ishtp_cl_send_msg, queue_message, ishtp_cl_send,
}

-- `k` buffers, queued or free, and `tx_ring_free_size` counts the free ones.
pub record IsPool (k : ℕ) (cl : Client) : Type 0 where
  pub counted : cl.tx_ring_free_size ≡ length cl.tx_free_list
  pub total : length cl.tx_list + length cl.tx_free_list ≡ k

transmit-IsPool :
    (k : ℕ) (dev : Device) (cl : Client) (m : TxBuf) (rest : List TxBuf)
    → cl.tx_list ≡ m ∷ rest
    → IsPool k cl
    → IsPool k (transmit dev cl m rest).cl
unfolding transmit
transmit-IsPool k dev cl m rest e p = ground (arith, length-append cl.tx_free_list (m ∷ []))

start_sending-IsPool : (k : ℕ) (cl : Client) → IsPool k cl → IsPool k (start_sending cl)
unfolding start_sending
start_sending-IsPool k cl p = ground arith

tx_list-start_sending : (cl : Client) → (start_sending cl).tx_list ≡ cl.tx_list
unfolding start_sending
tx_list-start_sending cl = ground arith

ipc_tx_send-IsPool :
    (k : ℕ) (s : Sys) (l : List TxBuf)
    → s.cl.tx_list ≡ l
    → IsPool k s.cl
    → IsPool k (ipc_tx_send s).cl
unfolding ipc_tx_send
ipc_tx_send-IsPool k s [] e p = ground arith
ipc_tx_send-IsPool k s (m ∷ rest) e p = ground (
  arith,
  tx_list-start_sending s.cl,
  start_sending-IsPool k s.cl p,
  transmit-IsPool k s.dev (start_sending s.cl) m rest,
)

send_msg_ipc-IsPool : (k : ℕ) (s : Sys) → IsPool k s.cl → IsPool k (ishtp_cl_send_msg_ipc s).cl
unfolding ishtp_cl_send_msg_ipc
send_msg_ipc-IsPool k s p =
    let t : Sys = record s { cl = record (s.cl) { tx_offs = 0 } } in
    ground (
      arith,
      ipc_tx_send-IsPool k t s.cl.tx_list refl (record { counted = p.counted; total = p.total }),
    )

dma_or_ipc-IsPool :
    (k : ℕ) (s : Sys) (m : TxBuf) (rest : List TxBuf) (r : Option ℕ × Device)
    → s.cl.tx_list ≡ m ∷ rest
    → IsPool k s.cl
    → IsPool k (dma_or_ipc s m rest r).cl
unfolding dma_or_ipc dma_transmit
dma_or_ipc-IsPool k s m rest (none, dev) e p = ground (arith, send_msg_ipc-IsPool k s p)
dma_or_ipc-IsPool k s m rest (some a, dev) e p =
    ground (arith, length-append s.cl.tx_free_list (m ∷ []))

send_msg_dma-IsPool :
    (k : ℕ) (s : Sys) (l : List TxBuf)
    → s.cl.tx_list ≡ l
    → IsPool k s.cl
    → IsPool k (ishtp_cl_send_msg_dma s).cl
unfolding ishtp_cl_send_msg_dma
send_msg_dma-IsPool k s [] e p = ground arith
send_msg_dma-IsPool k s (m ∷ rest) e p =
    ground (arith, dma_or_ipc-IsPool k s m rest (ishtp_cl_get_dma_send_buf s.dev m.size) e p)

-- Starting to send keeps the pool, over either path.
pub send_msg-IsPool : (k : ℕ) (s : Sys) → IsPool k s.cl → IsPool k (ishtp_cl_send_msg s).cl
unfolding ishtp_cl_send_msg
send_msg-IsPool k s p =
    ground (arith, send_msg_dma-IsPool k s s.cl.tx_list refl p, send_msg_ipc-IsPool k s p)

queue_message-IsPool :
    (k : ℕ) (s : Sys) (m : TxBuf) (rest : List TxBuf) (block buf : List ℕ) (n : ℕ)
    → s.cl.tx_free_list ≡ m ∷ rest
    → IsPool k s.cl
    → IsPool k (queue_message s m rest block buf n).1.cl
unfolding queue_message
queue_message-IsPool k s m rest block buf n e p =
    ground (arith, send_msg-IsPool k queued kept, kept)
  where
    queued : Sys
    queued = record s {
      cl = record (s.cl) {
        tx_free_list = rest;
        tx_ring_free_size = s.cl.tx_ring_free_size - 1;
        tx_list = s.cl.tx_list ++ record m { content = some (memcpy block buf n); size = n } ∷ [];
      };
    }

    kept : IsPool k queued.cl
    kept = ground (
      arith,
      length-append s.cl.tx_list (record m { content = some (memcpy block buf n); size = n } ∷ []),
    )

send_from-IsPool :
    (k : ℕ) (s : Sys) (buf : List ℕ) (n : ℕ) (l : List TxBuf)
    → s.cl.tx_free_list ≡ l
    → IsPool k s.cl
    → IsPool k (ishtp_cl_send s buf n).1.cl
unfolding ishtp_cl_send
send_from-IsPool k s buf n [] e p = ground arith
send_from-IsPool k s buf n (m ∷ rest) e p = elim (Option-cases m.content) [
  | inl c ↦ ground arith
  | inr (block, c) ↦ ground (arith, queue_message-IsPool k s m rest block buf n e p)
]

-- Every call of `ishtp_cl_send`, whatever it returns and whichever path it takes, keeps the number of
-- transmit buffers, and `tx_ring_free_size` stays the length of the free list.
pub ishtp_cl_send-IsPool :
    (k : ℕ) (s : Sys) (buf : List ℕ) (n : ℕ) → IsPool k s.cl → IsPool k (ishtp_cl_send s buf n).1.cl
ishtp_cl_send-IsPool k s buf n p = send_from-IsPool k s buf n s.cl.tx_free_list refl p

-- A call that returns an error has queued and sent nothing: the device and the client are as they
-- were, but for the count of failed sends.
pub ishtp_cl_send_refused :
    (s : Sys) (buf : List ℕ) (n : ℕ) {e : Errno}
    → (ishtp_cl_send s buf n).0 ≡ err e
    → ((ishtp_cl_send s buf n).1.dev ≡ s.dev)
      × ((ishtp_cl_send s buf n).1.cl
          ≡ record (s.cl) { err_send_msg = (ishtp_cl_send s buf n).1.cl.err_send_msg })
unfolding ishtp_cl_send queue_message
ishtp_cl_send_refused s buf n h = ground arith
