-- ===== src/Ishtp/Transfer/Messages.antt =====
-- A whole message that comes by DMA or over IPC, src/intel-ish-hid-linux-6.5/ishtp/client.c: `recv_ishtp_cl_msg_dma`
-- and `recv_ishtp_cl_msg` with their search for a buffer.
use ubuntu_elkhart_lake_pse.Prelude.{
  ℕ, ◌%◌, ◌≤◌, ◌≡◌, refl, ap, ◌∙◌, sym, Bool-cases, true, false, List, [], ◌∷◌, Option, none, some,
  arith, inl, inr, ◌==◌, ltb, length, if◌then◌else◌,
}
use ubuntu_elkhart_lake_pse.Ishtp.Types.{MsgHdr, Rb, Client, Sys, World}
use ubuntu_elkhart_lake_pse.Ishtp.Recv.{
  nobody, fault, hit, Found, push_front, takes, look_at, find_rb, put_back, after_search,
  recv_ishtp_cl_msg,
}
use ubuntu_elkhart_lake_pse.Ishtp.Recv.Search.{fragment}
use ubuntu_elkhart_lake_pse.Ishtp.Transfer.{
  DmaXfer, hdr_of, back, after_search_dma, recv_ishtp_cl_msg_dma,
}
use ubuntu_elkhart_lake_pse.Ishtp.Transfer.Paths.{forget, forget_some, deliver_dma-deliver}

-- No posted buffer holds a part of a message.
abbrev pub AllEmpty : List Rb → Type 0
AllEmpty [] = Unit
AllEmpty (r ∷ rs) = (r.buf_idx ≡ 0) × AllEmpty rs

abbrev HitsEmpty : Found → Type 0
HitsEmpty nobody = Unit
HitsEmpty fault = Unit
HitsEmpty (hit pre rb cl post) = rb.buf_idx ≡ 0

push_front-HitsEmpty : (r : Rb) (f : Found) → HitsEmpty f → HitsEmpty (push_front r f)
push_front-HitsEmpty r nobody h = tt
push_front-HitsEmpty r fault h = tt
push_front-HitsEmpty r (hit pre rb cl post) h = h

look_at-HitsEmpty :
    (hdr : MsgHdr) (r : Rb) (rs : List Rb) (f : Found) (o : Option Client)
    → r.buf_idx ≡ 0
    → HitsEmpty f
    → HitsEmpty (look_at hdr r rs f o)
unfolding look_at
look_at-HitsEmpty hdr r rs f none e h = tt
look_at-HitsEmpty hdr r rs f (some cl) e h = elim (Bool-cases (takes hdr cl)) [
  | inl t ↦ rw t e
  | inr t ↦ rw t (push_front-HitsEmpty r f h)
]

owner-HitsEmpty :
    (heap : ℕ → Option Client) (hdr : MsgHdr) (r : Rb) (rs : List Rb) (f : Found) (o : Option ℕ)
    → r.buf_idx ≡ 0
    → HitsEmpty f
    → HitsEmpty
        (elim o as (λ x. Found) [ none ↦ push_front r f | some p ↦ look_at hdr r rs f (heap p) ])
owner-HitsEmpty heap hdr r rs f none e h = push_front-HitsEmpty r f h
owner-HitsEmpty heap hdr r rs f (some p) e h = look_at-HitsEmpty hdr r rs f (heap p) e h

find_rb-HitsEmpty :
    (heap : ℕ → Option Client) (hdr : MsgHdr) (rs : List Rb)
    → AllEmpty rs
    → HitsEmpty (find_rb heap hdr rs)
unfolding find_rb
find_rb-HitsEmpty heap hdr [] h = tt
find_rb-HitsEmpty heap hdr (r ∷ rs) (e, h) =
    owner-HitsEmpty heap hdr r rs (find_rb heap hdr rs) r.cl e (find_rb-HitsEmpty heap hdr rs h)

-- A client but for its two counters of received messages.
abbrev pub forget_counts : Option Client → Option Client
forget_counts none = none
forget_counts (some c) = some (record c { recv_msg_cnt_ipc = 0; recv_msg_cnt_dma = 0 })

-- Two outcomes that use freed memory both, or leave the same device and, at the address `q`, the same client but
-- for its counters.
abbrev pub Agree : ℕ → Option World → Option World → Type 0
Agree q none none = Unit
Agree q none (some w) = ⊥
Agree q (some v) none = ⊥
Agree q (some v) (some w) = (v.dev ≡ w.dev) × (forget_counts (v.heap q) ≡ forget_counts (w.heap q))

module _ (w : World) (q : ℕ) where
  abbrev at_q : Sys → Option Client
  at_q s = if s.cl.addr == q then some s.cl else forget_counts (w.heap q)

  put_back-at_q : (s : Sys) → forget_counts ((put_back w s).heap q) ≡ at_q (forget s)
  put_back-at_q s = elim (Bool-cases (s.cl.addr == q)) [ inl e ↦ rw e refl | inr e ↦ rw e refl ]

  put_back-Agree :
      (s t : Sys) → forget s ≡ forget t → Agree q (some (put_back w s)) (some (put_back w t))
  put_back-Agree s t e = (ap (λ x. x.dev) e, put_back-at_q s ∙ ap at_q e ∙ sym (put_back-at_q t))

  back-Agree :
      (o : Option Sys) (t : Sys)
      → forget_some o ≡ some (forget t)
      → Agree q (back w o) (some (put_back w t))
  back-Agree none t e = absurd (cc)
  back-Agree (some s) t e = put_back-Agree s t (cc)

  after_search-Agree :
      (host fw n : ℕ) (regs : List ℕ) (f : Found)
      → HitsEmpty f
      → n % 4 ≡ 0
      → n ≤ length regs
      → Agree q
          (after_search_dma w (some regs) n f)
          (after_search w (fragment host fw n true) regs f)
  unfolding after_search_dma after_search
  after_search-Agree host fw n regs nobody h m l = (refl, refl)
  after_search-Agree host fw n regs fault h m l = tt
  after_search-Agree host fw n regs (hit pre rb cl post) h m l =
      back-Agree _ _
        (deliver_dma-deliver host fw n regs (record { dev = w.dev; cl = cl }) pre rb post h m l)

-- A message of whole words, of 128 bytes at most, for any client and in any state of the clients and their
-- buffers, where no posted buffer holds a part of a message: whether it comes by DMA or, in one
-- fragment, over IPC, the device and every client are the same afterwards, but for the counters of the
-- messages received on either way. If a freed client is met in the search, then on both ways.
pub recv_dma-Agree :
    (w : World) (x : DmaXfer) (regs : List ℕ) (q : ℕ)
    → AllEmpty w.dev.read_list
    → x.msg_length % 4 ≡ 0
    → x.msg_length ≤ 128
    → x.msg_length ≤ length regs
    → Agree q
        (recv_ishtp_cl_msg_dma w (some regs) x)
        (recv_ishtp_cl_msg w (fragment x.host_client_id x.fw_client_id x.msg_length true) regs)
unfolding recv_ishtp_cl_msg_dma recv_ishtp_cl_msg
recv_dma-Agree w x regs q h m small l =
    let fits : ltb 128 x.msg_length ≡ false = ground (arith, small) in
    rw fits (
      after_search-Agree w q x.host_client_id x.fw_client_id x.msg_length regs
        (find_rb w.heap (hdr_of x) w.dev.read_list)
        (find_rb-HitsEmpty w.heap (hdr_of x) w.dev.read_list h) m l)
