-- ===== src/Ishtp/Interrupt/Alive.antt =====
-- What receiving and sending do to the lists that point to clients, src/intel-ish-hid-linux-6.5/ishtp/client.c:
-- a buffer that is posted belongs to the client that posts it.
use ubuntu_elkhart_lake_pse.Prelude.{
  ℕ, ◌≡◌, refl, Bool-cases, List, [], ◌∷◌, ◌++◌, Option, some, arith, inl, inr, Option-cases, ◌==◌,
}
use ubuntu_elkhart_lake_pse.Ishtp.Types.{
  Code, ok, err, enomem, is_connected, is_enabled, FwClient, Rb, Client, Sys,
}
use ubuntu_elkhart_lake_pse.Ishtp.Hbm.{ishtp_hbm_cl_flow_control_req}
use ubuntu_elkhart_lake_pse.Ishtp.Rings.{
  flow_control_sent, start_read, ishtp_cl_read_start, ishtp_cl_io_rb_recycle,
}
use ubuntu_elkhart_lake_pse.Ishtp.Send.{ishtp_fw_cl_by_id}
use ubuntu_elkhart_lake_pse.Ishtp.Recv.{update, post_next, ishtp_cl_read_complete}
use ubuntu_elkhart_lake_pse.Ishtp.Recv.Safety.{AllLive}

abbrev pub IsAlive : (ℕ → Option Client) → ℕ → Type 0
IsAlive heap q = (c : Client) × (heap q ≡ some c)

-- Every client of a list is in memory.
abbrev pub AllThere : (ℕ → Option Client) → List ℕ → Type 0
AllThere heap [] = Unit
AllThere heap (q ∷ qs) = IsAlive heap q × AllThere heap qs

-- A buffer that a client posts.
abbrev pub posted_by : Client → Rb → Rb
posted_by cl rb = record rb { cl = some cl.addr; buf_idx = 0 }

pub update-IsAlive :
    (heap : ℕ → Option Client) (p q : ℕ) (c : Client)
    → IsAlive heap q
    → IsAlive (update heap p (some c)) q
update-IsAlive heap p q c (d, e) = elim (Option-cases (update heap p (some c) q)) [
  | inl n ↦ absurd (ground arith)
  | inr (v, n) ↦ (v, n)
]

pub update_self-IsAlive :
    (heap : ℕ → Option Client) (p : ℕ) (c : Client) → IsAlive (update heap p (some c)) p
update_self-IsAlive heap p c = (c, ground arith)

pub update-AllThere :
    (heap : ℕ → Option Client) (p : ℕ) (c : Client) (qs : List ℕ)
    → AllThere heap qs
    → AllThere (update heap p (some c)) qs
update-AllThere heap p c [] a = tt
update-AllThere heap p c (q ∷ qs) (a, b) =
    (update-IsAlive heap p q c a, update-AllThere heap p c qs b)

pub update-AllLive :
    (heap : ℕ → Option Client) (p : ℕ) (c : Client) (rs : List Rb)
    → AllLive heap rs
    → AllLive (update heap p (some c)) rs
update-AllLive heap p c [] a = tt
update-AllLive heap p c (r ∷ rs) (inl e, a) = (inl e, update-AllLive heap p c rs a)
update-AllLive heap p c (r ∷ rs) (inr (q, d, e, f), a) =
    let (v, g) = update-IsAlive heap p q c (d, f) in
    (inr (q, v, e, g), update-AllLive heap p c rs a)

pub AllLive-append :
    (heap : ℕ → Option Client) (rs ss : List Rb)
    → AllLive heap rs
    → AllLive heap ss
    → AllLive heap (rs ++ ss)
AllLive-append heap [] ss a b = b
AllLive-append heap (r ∷ rs) ss (x, a) b = (x, AllLive-append heap rs ss a b)

pub AllLive-split :
    (heap : ℕ → Option Client) (rs : List Rb) (r : Rb) (ss : List Rb)
    → AllLive heap (rs ++ r ∷ ss)
    → AllLive heap rs × AllLive heap (r ∷ []) × AllLive heap ss
AllLive-split heap [] r ss (x, a) = (tt, (x, tt), a)
AllLive-split heap (q ∷ rs) r ss (x, a) =
    let (l, m, n) = AllLive-split heap rs r ss a in ((x, l), m, n)

-- What a function on a client and its device may do to the lists: nothing, or post a buffer of the client.
pub data Posts (s t : Sys) : Type 0 where
  same :
      t.dev.read_list ≡ s.dev.read_list
      → t.dev.cl_list ≡ s.dev.cl_list
      → t.cl.addr ≡ s.cl.addr
      → Posts s t
  one :
      (rb : Rb)
      → t.dev.read_list ≡ s.dev.read_list ++ posted_by s.cl rb ∷ []
      → t.dev.cl_list ≡ s.dev.cl_list
      → t.cl.addr ≡ s.cl.addr
      → Posts s t

flow_control-lists :
    (s : Sys)
    → ((ishtp_hbm_cl_flow_control_req s).1.dev.read_list ≡ s.dev.read_list)
      × ((ishtp_hbm_cl_flow_control_req s).1.dev.cl_list ≡ s.dev.cl_list)
      × ((ishtp_hbm_cl_flow_control_req s).1.cl.addr ≡ s.cl.addr)
unfolding ishtp_hbm_cl_flow_control_req
flow_control-lists s = ground arith

-- What a posting asks of flow control.
asked : Sys → Rb → List Rb → Sys
asked s rb rest = record {
  dev = record (s.dev) { read_list = s.dev.read_list ++ posted_by s.cl rb ∷ [] };
  cl = record (s.cl) { free_rb_list = rest };
}

pub post_next-Posts : (s : Sys) (l : List Rb) → s.cl.free_rb_list ≡ l → Posts s (post_next s)
unfolding post_next asked
post_next-Posts s [] e = rw e (same refl refl refl)
post_next-Posts s (rb ∷ rest) e =
    let (a, b, c) = flow_control-lists (asked s rb rest) in rw e (one rb a b c)

flow_control_sent-Posts :
    (s : Sys) (rb : Rb) (o : Code × Sys)
    → o.1.dev.read_list ≡ s.dev.read_list ++ posted_by s.cl rb ∷ []
    → o.1.dev.cl_list ≡ s.dev.cl_list
    → o.1.cl.addr ≡ s.cl.addr
    → Posts s (flow_control_sent s (posted_by s.cl rb) o).1
unfolding flow_control_sent
flow_control_sent-Posts s rb (ok n, t) a b c = one rb a b c
flow_control_sent-Posts s rb (err e, t) a b c = same refl b c

start_read-Posts : (s : Sys) (rb : Rb) (rest : List Rb) → Posts s (start_read s rb rest).1
unfolding start_read asked
start_read-Posts s rb rest =
    let (a, b, c) = flow_control-lists (asked s rb rest) in
    flow_control_sent-Posts s rb (ishtp_hbm_cl_flow_control_req (asked s rb rest)) a b c

read_start-Posts : (s : Sys) → Posts s (ishtp_cl_read_start s).1
unfolding ishtp_cl_read_start
read_start-Posts s = elim (Bool-cases (is_connected s.cl.state)) [
  | inr e ↦ rw e (same refl refl refl)
  | inl e ↦ elim (Bool-cases (is_enabled s.dev.dev_state)) [
    | inr f ↦ rw (e, f) (same refl refl refl)
    | inl f ↦ elim (Option-cases (ishtp_fw_cl_by_id s.dev.fw_clients s.cl.fw_client_id)) [
      | inl g ↦ rw (e, f, g) (same refl refl refl)
      | inr (fw, g) ↦ rw (e, f, g) (from_free fw s.cl.free_rb_list)
    ]
  ]
]
  where
    from_free :
        (fw : FwClient) (l : List Rb)
        → Posts s
            (elim l as (λ x. Code × Sys) [
              | [] ↦ (err enomem, s)
              | rb ∷ rest ↦ start_read s rb rest
            ]).1
    from_free fw [] = same refl refl refl
    from_free fw (rb ∷ rest) = start_read-Posts s rb rest

-- On a client that got one more free buffer.
pub recycle-Posts : (s : Sys) (rb : Rb) → Posts s (ishtp_cl_io_rb_recycle s rb).1
unfolding ishtp_cl_io_rb_recycle
recycle-Posts s rb = elim (Option-cases rb.cl) [
  | inl e ↦ rw e (same refl refl refl)
  | inr (p, e) ↦ elim (Bool-cases (s.cl.out_flow_ctrl_creds == 0)) [
    | inr f ↦ rw (e, f) (same refl refl refl)
    | inl f ↦ rw (e, f) (freed _ (read_start-Posts (with_rb (record rb { cl = some p }))))
  ]
]
  where
    with_rb : Rb → Sys
    with_rb r = record s { cl = record (s.cl) { free_rb_list = s.cl.free_rb_list ++ r ∷ [] } }

    freed : (r : Rb) {t : Sys} → Posts (with_rb r) t → Posts s t
    freed r (same a b c) = same a b c
    freed r (one q a b c) = one q a b c

pub read_complete-lists :
    (s : Sys) (rb : Rb)
    → ((ishtp_cl_read_complete s rb).dev.read_list ≡ s.dev.read_list)
      × ((ishtp_cl_read_complete s rb).dev.cl_list ≡ s.dev.cl_list)
      × ((ishtp_cl_read_complete s rb).cl.addr ≡ s.cl.addr)
unfolding ishtp_cl_read_complete
read_complete-lists s rb = ground arith
