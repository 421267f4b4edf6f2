-- ===== src/Ishtp/Interrupt/Live.antt =====
-- No freed client is used: what receiving does to the clients in memory, src/intel-ish-hid-linux-6.5/ishtp/client.c
-- and hbm.c.
use mathlib.Core.Path.{subst}
use ubuntu_elkhart_lake_pse.Prelude.{
  ℕ, ◌≡◌, ◌≢◌, refl, Bool-cases, List, [], ◌∷◌, ◌++◌, Option, none, some, inl, inr, ◌==◌, ltb, sym,
  ap, if◌then◌else◌,
}
use ubuntu_elkhart_lake_pse.Ishtp.Types.{cl_disconnected, MsgHdr, Rb, Client, Device, World, Sys}
use ubuntu_elkhart_lake_pse.Ishtp.Answers.{
  ConnectResponse, ishtp_hbm_cl_addr_equal, addressee, change_found, answered, fw_disconnected,
  ishtp_hbm_cl_connect_res, ishtp_hbm_cl_disconnect_res, ishtp_hbm_fw_disconnect_req, only_success,
}
use ubuntu_elkhart_lake_pse.Ishtp.Credit.{receive_credit, credited, receive_flow_control}
use ubuntu_elkhart_lake_pse.Ishtp.Recv.{
  update, put_back, takes, Found, nobody, fault, hit, find_rb, push_front, look_at, deliver,
  after_search, recv_ishtp_cl_msg,
}
use ubuntu_elkhart_lake_pse.Ishtp.Recv.Safety.{AllLive, find_rb-AllLive}
use ubuntu_elkhart_lake_pse.Ishtp.Transfer.{
  DmaXfer, hdr_of, after_search_dma, deliver_dma, recv_ishtp_cl_msg_dma,
}
use ubuntu_elkhart_lake_pse.Ishtp.Interrupt.Alive.{
  AllThere, update_self-IsAlive, update-AllThere, update-AllLive,
}
use ubuntu_elkhart_lake_pse.Ishtp.Interrupt.Delivery.{Lists, deliver-Lists, deliver_dma-Lists}
use ubuntu_elkhart_lake_pse.Ishtp.Interrupt.Flow.{Same, receive_credit-Same}

-- Every posted buffer points to a client in memory or to none, and every listed client is in memory.
pub record IsLive (w : World) : Type 0 where
  pub posted : AllLive w.heap w.dev.read_list
  pub listed : AllThere w.heap w.dev.cl_list

-- What the search finds stands in the list.
abbrev Shape : List Rb → Found → Type 0
Shape rs nobody = Unit
Shape rs fault = Unit
Shape rs (hit pre rb cl post) = rs ≡ pre ++ rb ∷ post

push_front-Shape :
    (r : Rb) (rs : List Rb) (f : Found) → Shape rs f → Shape (r ∷ rs) (push_front r f)
push_front-Shape r rs nobody h = tt
push_front-Shape r rs fault h = tt
push_front-Shape r rs (hit pre rb cl post) h = ap (λ l. r ∷ l) h

look_at-Shape :
    (hdr : MsgHdr) (r : Rb) (rs : List Rb) (f : Found) (o : Option Client)
    → Shape rs f
    → Shape (r ∷ rs) (look_at hdr r rs f o)
unfolding look_at
look_at-Shape hdr r rs f none h = tt
look_at-Shape hdr r rs f (some cl) h = elim (Bool-cases (takes hdr cl)) [
  | inl e ↦ rw e refl
  | inr e ↦ rw e (push_front-Shape r rs f h)
]

owner-Shape :
    (heap : ℕ → Option Client) (hdr : MsgHdr) (r : Rb) (rs : List Rb) (f : Found) (o : Option ℕ)
    → Shape rs f
    → Shape
        (r ∷ rs)
        (elim o as (λ x. Found) [ none ↦ push_front r f | some p ↦ look_at hdr r rs f (heap p) ])
owner-Shape heap hdr r rs f none h = push_front-Shape r rs f h
owner-Shape heap hdr r rs f (some p) h = look_at-Shape hdr r rs f (heap p) h

find_rb-Shape :
    (heap : ℕ → Option Client) (hdr : MsgHdr) (rs : List Rb) → Shape rs (find_rb heap hdr rs)
unfolding find_rb
find_rb-Shape heap hdr [] = tt
find_rb-Shape heap hdr (r ∷ rs) =
    owner-Shape heap hdr r rs (find_rb heap hdr rs) r.cl (find_rb-Shape heap hdr rs)

-- A client that is put back, with lists that are right once it is in memory.
put_back-IsLive :
    (w : World) (s t : Sys)
    → s.dev ≡ w.dev
    → AllThere w.heap w.dev.cl_list
    → Lists (update w.heap s.cl.addr (some t.cl)) s t
    → IsLive (put_back w t)
put_back-IsLive w s t d l (a, b, c) = record {
  posted = subst (λ q. AllLive (update w.heap q (some t.cl)) t.dev.read_list) (sym c) a;
  listed = rw (b, ap (λ x. x.cl_list) d) (update-AllThere w.heap t.cl.addr t.cl w.dev.cl_list l);
}

-- The same for functions that leave the lists as they are.
Same-IsLive :
    (w : World) (cl : Client) (t : Sys)
    → Same (record { dev = w.dev; cl = cl }) t
    → IsLive w
    → IsLive (put_back w t)
Same-IsLive w cl t (a, b, c) l =
    put_back-IsLive w (record { dev = w.dev; cl = cl }) t refl l.listed
      (rw a (update-AllLive w.heap cl.addr t.cl w.dev.read_list l.posted), b, c)

-- The outcome of a step: no freed memory was used, and all is live as before.
abbrev pub StaysLive : Option World → Type 0
StaysLive o = (w' : World) × (o ≡ some w') × IsLive w'

after_search-StaysLive :
    (w : World) (hdr : MsgHdr) (regs : List ℕ) (f : Found)
    → IsLive w
    → f ≢ fault
    → Shape w.dev.read_list f
    → StaysLive (after_search w hdr regs f)
unfolding after_search
after_search-StaysLive w hdr regs nobody l n h = (w, refl, l)
after_search-StaysLive w hdr regs fault l n h = absurd (n refl)
after_search-StaysLive w hdr regs (hit pre rb cl post) l n h =
    let s : Sys = record { dev = w.dev; cl = cl } in
    let t = deliver hdr regs s pre rb post in
    (
      put_back w t,
      refl,
      put_back-IsLive w s t refl l.listed (
          deliver-Lists (update w.heap cl.addr (some t.cl)) s pre rb post
            (rw (← h) (update-AllLive w.heap cl.addr t.cl w.dev.read_list l.posted))
            (update_self-IsAlive w.heap cl.addr t.cl) hdr regs),
    )

-- A fragment for any client.
pub recv_ishtp_cl_msg-StaysLive :
    (w : World) (hdr : MsgHdr) (regs : List ℕ) → IsLive w → StaysLive (recv_ishtp_cl_msg w hdr regs)
unfolding recv_ishtp_cl_msg
recv_ishtp_cl_msg-StaysLive w hdr regs l = elim (Bool-cases (hdr.reserved == 0)) [
  | inr e ↦ rw e (w, refl, l)
  | inl e ↦ elim (Bool-cases (ltb 128 hdr.length)) [
    | inl f ↦ rw (e, f) (w, refl, l)
    | inr f ↦
        rw (e, f)
          (after_search-StaysLive w hdr regs (find_rb w.heap hdr w.dev.read_list) l
            (find_rb-AllLive w.heap hdr w.dev.read_list l.posted)
            (find_rb-Shape w.heap hdr w.dev.read_list))
  ]
]

after_search_dma-StaysLive :
    (w : World) (bytes : List ℕ) (n : ℕ) (f : Found)
    → IsLive w
    → f ≢ fault
    → Shape w.dev.read_list f
    → StaysLive (after_search_dma w (some bytes) n f)
unfolding after_search_dma
after_search_dma-StaysLive w bytes n nobody l k h = (w, refl, l)
after_search_dma-StaysLive w bytes n fault l k h = absurd (k refl)
after_search_dma-StaysLive w bytes n (hit pre rb cl post) l k h =
    let s : Sys = record { dev = w.dev; cl = cl } in
    let (t, e, _) = delivered cl in
    let (u, d, m) = delivered t.cl in
    let same : t ≡ u = cc in
    (
      put_back w u,
      rw d refl,
      put_back-IsLive w s u refl l.listed
          (subst (λ x. Lists (update w.heap cl.addr (some x.cl)) s u) same m),
    )
  where
    delivered :
        (c : Client)
        → (t : Sys) × (deliver_dma (some bytes) n (record { dev = w.dev; cl = cl }) pre rb post
            ≡ some t)
          × Lists (update w.heap cl.addr (some c)) (record { dev = w.dev; cl = cl }) t
    delivered c =
        deliver_dma-Lists (update w.heap cl.addr (some c)) (record { dev = w.dev; cl = cl }) pre rb
          post (rw (← h) (update-AllLive w.heap cl.addr c w.dev.read_list l.posted))
          (update_self-IsAlive w.heap cl.addr c) bytes n

pub recv_dma-StaysLive :
    (w : World) (bytes : List ℕ) (x : DmaXfer)
    → IsLive w
    → StaysLive (recv_ishtp_cl_msg_dma w (some bytes) x)
unfolding recv_ishtp_cl_msg_dma
recv_dma-StaysLive w bytes x l =
    after_search_dma-StaysLive w bytes x.msg_length (find_rb w.heap (hdr_of x) w.dev.read_list) l
      (find_rb-AllLive w.heap (hdr_of x) w.dev.read_list l.posted)
      (find_rb-Shape w.heap (hdr_of x) w.dev.read_list)

-- A search through the clients finds one in memory, or none.
addressee-AllThere :
    (heap : ℕ → Option Client) (rs : ConnectResponse) (qs : List ℕ)
    → AllThere heap qs
    → (o : Option (ℕ × Client)) × (addressee heap rs qs ≡ some o)
unfolding addressee
addressee-AllThere heap rs [] a = (none, refl)
addressee-AllThere heap rs (q ∷ qs) ((c, e), a) = elim (Bool-cases (ishtp_hbm_cl_addr_equal c rs)) [
  | inl f ↦ (some (q, c), rw (e, f, addressee) refl)
  | inr f ↦ let (o, g) = addressee-AllThere heap rs qs a in (o, rw (e, f, addressee) g)
]

-- A client in memory that is replaced.
updated-IsLive :
    (w : World) (dev : Device) (q : ℕ) (c : Client)
    → dev.read_list ≡ w.dev.read_list
    → dev.cl_list ≡ w.dev.cl_list
    → IsLive w
    → IsLive (record { dev = dev; heap = update w.heap q (some c) })
updated-IsLive w dev q c a b l = record {
  posted = rw a (update-AllLive w.heap q c w.dev.read_list l.posted);
  listed = rw b (update-AllThere w.heap q c w.dev.cl_list l.listed);
}

change_found-StaysLive :
    (w : World) (f : Client → Client) (o : Option (ℕ × Client))
    → IsLive w
    → StaysLive (change_found w f (some o))
unfolding change_found
change_found-StaysLive w f none l = (w, refl, l)
change_found-StaysLive w f (some (q, c)) l = (_, refl, updated-IsLive w w.dev q (f c) refl refl l)

pub connect_res-StaysLive :
    (w : World) (rs : ConnectResponse) → IsLive w → StaysLive (ishtp_hbm_cl_connect_res w rs)
unfolding ishtp_hbm_cl_connect_res
connect_res-StaysLive w rs l =
    let (o, e) = addressee-AllThere w.heap rs w.dev.cl_list l.listed in
    rw e (change_found-StaysLive w (answered rs) o l)

pub disconnect_res-StaysLive :
    (w : World) (rs : ConnectResponse) → IsLive w → StaysLive (ishtp_hbm_cl_disconnect_res w rs)
unfolding ishtp_hbm_cl_disconnect_res only_success
disconnect_res-StaysLive w rs l =
    let (o, e) = addressee-AllThere w.heap rs w.dev.cl_list l.listed in
    rw e (
      change_found-StaysLive w (λ c. record c { state = cl_disconnected })
        (if rs.status == 0 then o else none) l)

fw_disconnected-StaysLive :
    (w : World) (o : Option (ℕ × Client)) → IsLive w → StaysLive (fw_disconnected w (some o))
fw_disconnected-StaysLive w none l = (w, refl, l)
fw_disconnected-StaysLive w (some (q, c)) l = (_, refl, updated-IsLive w _ q _ refl refl l)

pub fw_disconnect_req-StaysLive :
    (w : World) (rs : ConnectResponse) → IsLive w → StaysLive (ishtp_hbm_fw_disconnect_req w rs)
unfolding ishtp_hbm_fw_disconnect_req
fw_disconnect_req-StaysLive w rs l =
    let (o, e) = addressee-AllThere w.heap rs w.dev.cl_list l.listed in
    rw e (fw_disconnected-StaysLive w o l)

credited-StaysLive :
    (w : World) (o : Option (ℕ × Client)) → IsLive w → StaysLive (credited w (some o))
credited-StaysLive w none l = (w, refl, l)
credited-StaysLive w (some (q, c)) l = (
  _,
  refl,
  Same-IsLive w c (receive_credit (record { dev = w.dev; cl = c }))
      (receive_credit-Same (record { dev = w.dev; cl = c })) l,
)

pub flow_control-StaysLive :
    (w : World) (rs : ConnectResponse) → IsLive w → StaysLive (receive_flow_control w rs)
unfolding receive_flow_control
flow_control-StaysLive w rs l =
    let (o, e) = addressee-AllThere w.heap rs w.dev.cl_list l.listed in
    rw e (credited-StaysLive w o l)
