-- ===== src/Ishtp/Interrupt/Delivery.antt =====
-- A received message and the lists that point to clients, src/intel-ish-hid-linux-6.5/ishtp/client.c.
use ubuntu_elkhart_lake_pse.Prelude.{
  ℕ, ◌+◌, ◌≡◌, refl, Bool-cases, List, [], ◌∷◌, ◌++◌, Option, some, inl, inr, Option-cases, ◌==◌,
  ltb, ◌∙◌, decr8, incr32, memcpy,
}
use ubuntu_elkhart_lake_pse.Ishtp.Types.{Code, ok, err, eio, enomem, MsgHdr, Rb, Client, Sys}
use ubuntu_elkhart_lake_pse.Ishtp.Rings.{ishtp_cl_io_rb_recycle}
use ubuntu_elkhart_lake_pse.Ishtp.Recv.{
  post_next, ishtp_cl_read_complete, complete, accept, deliver,
}
use ubuntu_elkhart_lake_pse.Ishtp.Recv.Buffer.{grown}
use ubuntu_elkhart_lake_pse.Ishtp.Recv.Safety.{AllLive}
use ubuntu_elkhart_lake_pse.Ishtp.Transfer.{complete_dma, deliver_dma, copy_dma}
use ubuntu_elkhart_lake_pse.Ishtp.Interrupt.Alive.{
  IsAlive, posted_by, AllLive-append, AllLive-split, Posts, post_next-Posts, recycle-Posts,
  read_complete-lists, same, one,
}

-- Afterwards every posted buffer has its client, and the list of clients is as it was.
abbrev pub Lists : (ℕ → Option Client) → Sys → Sys → Type 0
Lists heap s t =
    AllLive heap t.dev.read_list × (t.dev.cl_list ≡ s.dev.cl_list) × (t.cl.addr ≡ s.cl.addr)

Posts-Lists :
    (heap : ℕ → Option Client) (s t : Sys)
    → Posts s t
    → AllLive heap s.dev.read_list
    → IsAlive heap s.cl.addr
    → Lists heap s t
Posts-Lists heap s t (same a b c) l (d, e) = (rw a l, b, c)
Posts-Lists heap s t (one rb a b c) l (d, e) = (
  rw a (
      AllLive-append heap s.dev.read_list (posted_by s.cl rb ∷ []) l
        (inr (s.cl.addr, d, refl, e), tt)),
  b,
  c,
)

then_same :
    (s t u : Sys)
    → Posts s t
    → (u.dev.read_list ≡ t.dev.read_list)
      × (u.dev.cl_list ≡ t.dev.cl_list)
      × (u.cl.addr ≡ t.cl.addr)
    → Posts s u
then_same s t u (same a b c) (d, e, f) = same (d ∙ a) (e ∙ b) (f ∙ c)
then_same s t u (one rb a b c) (d, e, f) = one rb (d ∙ a) (e ∙ b) (f ∙ c)

-- A client that only differs in its status and its credits posts the same.
changed :
    (s : Sys) (status : Code) (creds : ℕ) {t : Sys}
    → Posts (record s { cl = record (s.cl) { status = status; out_flow_ctrl_creds = creds } }) t
    → Posts s t
changed s status creds (same a b c) = same a b c
changed s status creds (one q a b c) = one q a b c

complete-Posts : (s : Sys) (rb : Rb) → Posts s (complete s rb)
unfolding complete
complete-Posts s rb =
    let start : Sys = record s {
      cl = record (s.cl) { status = ok 0; out_flow_ctrl_creds = decr8 s.cl.out_flow_ctrl_creds };
    } in
    let t = post_next start in
    let u : Sys = record t {
      cl = record (t.cl) {
        recv_msg_num_frags = incr32 t.cl.recv_msg_num_frags;
        recv_msg_cnt_ipc = incr32 t.cl.recv_msg_cnt_ipc;
      };
    } in
    then_same s t (ishtp_cl_read_complete u rb)
      (changed s (ok 0) (decr8 s.cl.out_flow_ctrl_creds)
        (post_next-Posts start s.cl.free_rb_list refl))
      (read_complete-lists u rb)

pub complete_dma-Posts : (s : Sys) (rb : Rb) → Posts s (complete_dma s rb)
unfolding complete_dma
complete_dma-Posts s rb =
    let start : Sys = record s {
      cl = record (s.cl) { status = ok 0; out_flow_ctrl_creds = decr8 s.cl.out_flow_ctrl_creds };
    } in
    let t = post_next start in
    let u : Sys = record t {
      cl = record (t.cl) {
        recv_msg_num_frags = incr32 t.cl.recv_msg_num_frags;
        recv_msg_cnt_dma = incr32 t.cl.recv_msg_cnt_dma;
      };
    } in
    then_same s t (ishtp_cl_read_complete u rb)
      (changed s (ok 0) (decr8 s.cl.out_flow_ctrl_creds)
        (post_next-Posts start s.cl.free_rb_list refl))
      (read_complete-lists u rb)

module _ (heap : ℕ → Option Client) (s : Sys) (pre : List Rb) (rb : Rb) (post : List Rb)
    (live : AllLive heap (pre ++ rb ∷ post)) (there : IsAlive heap s.cl.addr) where
  removed : Sys
  removed = record s { dev = record (s.dev) { read_list = pre ++ post } }

  rest-AllLive : AllLive heap (pre ++ post)
  rest-AllLive =
      let (a, b, c) = AllLive-split heap pre rb post live in AllLive-append heap pre post a c

  posting-Lists : (t : Sys) → Posts removed t → Lists heap s t
  unfolding removed
  posting-Lists t p = Posts-Lists heap removed t p rest-AllLive there

  fill-Lists :
      (r : Rb) (c : Client)
      → r.cl ≡ rb.cl
      → c.addr ≡ s.cl.addr
      → Lists heap s (record { dev = record (s.dev) { read_list = pre ++ r ∷ post }; cl = c })
  fill-Lists r c e f =
      let (a, (b, u), d) = AllLive-split heap pre rb post live in
      (AllLive-append heap pre (r ∷ post) a (rw e b, d), refl, f)

  recycled-Lists :
      (r : Rb) (status : Code)
      → Lists heap s (record ((ishtp_cl_io_rb_recycle removed r).1) {
        cl = record ((ishtp_cl_io_rb_recycle removed r).1.cl) { status = status };
      })
  recycled-Lists r status =
      posting-Lists (ishtp_cl_io_rb_recycle removed r).1 (recycle-Posts removed r)

  accept-Lists :
      (hdr : MsgHdr) (regs block : List ℕ) → Lists heap s (accept hdr regs block s pre rb post)
  unfolding accept removed
  accept-Lists hdr regs block = elim (Bool-cases hdr.msg_complete) [
    | inl e ↦ rw e (
        posting-Lists (complete removed (grown hdr regs block rb))
          (complete-Posts removed (grown hdr regs block rb)))
    | inr e ↦ rw e (
        fill-Lists (grown hdr regs block rb)
          (record (s.cl) { recv_msg_num_frags = incr32 s.cl.recv_msg_num_frags }) refl refl)
  ]

  -- A fragment that is received or refused.
  pub deliver-Lists : (hdr : MsgHdr) (regs : List ℕ) → Lists heap s (deliver hdr regs s pre rb post)
  unfolding deliver removed
  deliver-Lists hdr regs = elim (Option-cases rb.content) [
    | inl c ↦ rw c (rest-AllLive, refl, refl)
    | inr (block, c) ↦ elim (Bool-cases (rb.size == 0)) [
      | inl z ↦ rw (c, z) (rest-AllLive, refl, refl)
      | inr z ↦ elim (Bool-cases (ltb rb.size (hdr.length + rb.buf_idx))) [
        | inl b ↦ rw (c, z, b) (recycled-Lists (record rb { content = some block }) (err eio))
        | inr b ↦ rw (c, z, b) (accept-Lists hdr regs block)
      ]
    ]
  ]

  copied-Lists :
      (bytes block : List ℕ) (n : ℕ)
      → Lists heap s
          (complete_dma removed (record rb { content = some (memcpy block bytes n); buf_idx = n }))
  copied-Lists bytes block n =
      posting-Lists
        (complete_dma removed (record rb { content = some (memcpy block bytes n); buf_idx = n }))
        (complete_dma-Posts removed
          (record rb { content = some (memcpy block bytes n); buf_idx = n }))

  -- A message by DMA that is received or refused.
  pub deliver_dma-Lists :
      (bytes : List ℕ) (n : ℕ)
      → (t : Sys) × (deliver_dma (some bytes) n s pre rb post ≡ some t) × Lists heap s t
  unfolding deliver_dma copy_dma removed
  deliver_dma-Lists bytes n = elim (Option-cases rb.content) [
    | inl c ↦ rw c (
      record removed { cl = record (s.cl) { status = err enomem } },
      refl,
      (rest-AllLive, refl, refl),
    )
    | inr (block, c) ↦ elim (Bool-cases (rb.size == 0)) [
      | inl z ↦
          rw (c, z)
            (
              record removed { cl = record (s.cl) { status = err enomem } },
              refl,
              (rest-AllLive, refl, refl),
            )
      | inr z ↦ elim (Bool-cases (ltb rb.size n)) [
        | inl b ↦
            rw (c, z, b) (_, refl, recycled-Lists (record rb { content = some block }) (err eio))
        | inr b ↦ rw (c, z, b) (_, refl, copied-Lists bytes block n)
      ]
    ]
  ]
