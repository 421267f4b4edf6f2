-- ===== src/Ishtp/Interrupt/Flow.antt =====
-- Sending changes neither the posted buffers nor the list of clients, src/intel-ish-hid-linux-6.5/ishtp/client.c;
-- nor does writing a bus message.
use ubuntu_elkhart_lake_pse.Prelude.{
  ℕ, zero, suc, ◌+◌, ◌-◌, ◌/◌, ◌%◌, ◌≡◌, refl, Bool, Bool-cases, true, List, [], ◌∷◌, Option, none,
  some, arith, inl, inr, Option-cases, ◌==◌, leb, ◌∙◌,
}
use ubuntu_elkhart_lake_pse.Ishtp.Types.{TxBuf, Client, Device, Sys}
use ubuntu_elkhart_lake_pse.Ishtp.Dma.{
  dma_slot_size, slots_for, find_slots, release_in_map, get_from_map, ishtp_cl_get_dma_send_buf,
  ishtp_cl_release_dma_acked_mem,
}
use ubuntu_elkhart_lake_pse.Ishtp.Send.{
  bytes_of, TxLoop, last_fragment, next_fragment, tx_loop, start_sending, transmit, ipc_tx_send,
  ishtp_cl_send_msg_ipc, dma_transmit, dma_or_ipc, ishtp_cl_send_msg_dma, ishtp_cl_send_msg,
}
use ubuntu_elkhart_lake_pse.Ishtp.Credit.{with_credit, receive_credit}
use ubuntu_elkhart_lake_pse.Ishtp.Transfer.{dma_acked}

-- The lists of a device that point to clients.
abbrev pub SameLists : Device → Device → Type 0
SameLists d e = (e.read_list ≡ d.read_list) × (e.cl_list ≡ d.cl_list)

-- And the address of the client.
abbrev pub Same : Sys → Sys → Type 0
Same s t =
    (t.dev.read_list ≡ s.dev.read_list) × (t.dev.cl_list ≡ s.dev.cl_list) × (t.cl.addr ≡ s.cl.addr)

SameLists-trans : (c d e : Device) → SameLists c d → SameLists d e → SameLists c e
SameLists-trans c d e (a, b) (a', b') = (a' ∙ a, b' ∙ b)

tx_loop-SameLists :
    (fuel host fw : ℕ) (block : List ℕ) (size rem : ℕ) (s : TxLoop)
    → SameLists s.dev (tx_loop fuel host fw block size rem s).dev
unfolding tx_loop last_fragment next_fragment
tx_loop-SameLists zero host fw block size rem s = (refl, refl)
tx_loop-SameLists (suc fuel) host fw block size rem s = elim (Bool-cases (rem == 0)) [
  | inl e ↦ rw (e, tx_loop) (refl, refl)
  | inr e ↦ elim (Bool-cases (leb rem s.dev.mtu)) [
    | inl f ↦ rw (e, f, tx_loop) (refl, refl)
    | inr f ↦
        rw (e, f, tx_loop)
          (tx_loop-SameLists fuel host fw block size (size - (s.tx_offs + s.dev.mtu))
            (next_fragment host fw block s))
  ]
]

transmit-Same :
    (dev : Device) (cl : Client) (cl_msg : TxBuf) (rest : List TxBuf)
    → Same (record { dev = dev; cl = cl }) (transmit dev cl cl_msg rest)
unfolding transmit
transmit-Same dev cl cl_msg rest =
    let rem = cl_msg.size - cl.tx_offs in
    let (a, b) =
      tx_loop-SameLists (suc rem) cl.host_client_id cl.fw_client_id (bytes_of cl_msg.content)
        cl_msg.size rem (record { dev = dev; tx_offs = cl.tx_offs; sending = cl.sending }) in
    (a, b, refl)

start_sending-addr : (cl : Client) → (start_sending cl).addr ≡ cl.addr
unfolding start_sending
start_sending-addr cl = ground arith

send_first-Same : (s : Sys) (l : List TxBuf) → s.cl.tx_list ≡ l → Same s (ipc_tx_send s)
unfolding ipc_tx_send
send_first-Same s [] e = ground arith
send_first-Same s (cl_msg ∷ rest) e =
    ground (arith, transmit-Same s.dev (start_sending s.cl) cl_msg rest, start_sending-addr s.cl)

ipc-Same : (s : Sys) → Same s (ishtp_cl_send_msg_ipc s)
unfolding ishtp_cl_send_msg_ipc
ipc-Same s =
    ground
      (arith, send_first-Same (record s { cl = record (s.cl) { tx_offs = 0 } }) s.cl.tx_list refl)

release_map-SameLists :
    (o : Option (List Bool)) (dev : Device) (i n : ℕ) → SameLists dev (release_in_map o dev i n)
unfolding release_in_map
release_map-SameLists none dev i n = (refl, refl)
release_map-SameLists (some tx_map) dev i n = (refl, refl)

pub release-SameLists :
    (dev : Device) (msg_addr size : ℕ)
    → SameLists dev (ishtp_cl_release_dma_acked_mem dev msg_addr size)
unfolding ishtp_cl_release_dma_acked_mem
release-SameLists dev msg_addr size = elim (Bool-cases (msg_addr % dma_slot_size == 0)) [
  | inl e ↦
      rw e (
        release_map-SameLists dev.dma_tx_map dev (msg_addr / dma_slot_size)
          (slots_for (size % 256)))
  | inr e ↦ rw e (refl, refl)
]

get_map-SameLists :
    (o : Option (List Bool)) (dev : Device) (required : ℕ)
    → SameLists dev (get_from_map o dev required).1
unfolding get_from_map
get_map-SameLists none dev required = (refl, refl)
get_map-SameLists (some tx_map) dev required =
    elim (Option-cases (find_slots (suc dev.dma_num_slots) tx_map dev.dma_num_slots required 0)) [
      | inl e ↦ rw (e, get_from_map) (refl, refl)
      | inr (i, e) ↦ rw (e, get_from_map) (refl, refl)
    ]

get_buf-SameLists : (dev : Device) (size : ℕ) → SameLists dev (ishtp_cl_get_dma_send_buf dev size).1
unfolding ishtp_cl_get_dma_send_buf
get_buf-SameLists dev size = get_map-SameLists dev.dma_tx_map dev (slots_for size)

dma_or_ipc-Same :
    (s : Sys) (cl_msg : TxBuf) (rest : List TxBuf) (o : Option ℕ × Device)
    → SameLists s.dev o.1
    → Same s (dma_or_ipc s cl_msg rest o)
unfolding dma_or_ipc dma_transmit
dma_or_ipc-Same s cl_msg rest (none, dev) (a, b) = ground (arith, ipc-Same s)
dma_or_ipc-Same s cl_msg rest (some msg_addr, dev) (a, b) = (a, b, refl)

dma_first-Same : (s : Sys) (l : List TxBuf) → s.cl.tx_list ≡ l → Same s (ishtp_cl_send_msg_dma s)
unfolding ishtp_cl_send_msg_dma
dma_first-Same s [] e = ground arith
dma_first-Same s (cl_msg ∷ rest) e = ground (
  arith,
  dma_or_ipc-Same s cl_msg rest (ishtp_cl_get_dma_send_buf s.dev cl_msg.size)
      (get_buf-SameLists s.dev cl_msg.size),
)

pub ishtp_cl_send_msg-Same : (s : Sys) → Same s (ishtp_cl_send_msg s)
unfolding ishtp_cl_send_msg
ishtp_cl_send_msg-Same s = ground (arith, ipc-Same s, dma_first-Same s s.cl.tx_list refl)

-- A credit that comes, and an acknowledgement.
pub receive_credit-Same : (s : Sys) → Same s (receive_credit s)
unfolding receive_credit
receive_credit-Same s = elim (Bool-cases (s.cl.ishtp_flow_ctrl_creds == 0)) [
  | inr e ↦ rw e (refl, refl, refl)
  | inl e ↦ rw e (sends s.cl.tx_list)
]
  where
    sends :
        (l : List TxBuf)
        → Same s (elim l as (λ x. Sys) [
          | [] ↦ with_credit s
          | cl_msg ∷ rest ↦ ishtp_cl_send_msg (with_credit s)
        ])
    sends [] = (refl, refl, refl)
    sends (cl_msg ∷ rest) = ishtp_cl_send_msg-Same (with_credit s)

pub dma_acked-Same : (s : Sys) → Same s (dma_acked s)
unfolding dma_acked
dma_acked-Same s =
    ground
      (arith, ishtp_cl_send_msg-Same (record s { cl = record (s.cl) { last_dma_acked = true } }))
