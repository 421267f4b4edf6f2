-- ===== src/Ishtp/Rings/Credits.antt =====
-- Receive buffers and flow control credits, src/intel-ish-hid-linux-6.5/ishtp/{client.c, client-buffers.c,
-- hbm.c}: the firmware may send one message for a credit, and a buffer is posted for it.
use ubuntu_elkhart_lake_pse.Prelude.{
  ℕ, ◌+◌, ◌≤◌, ◌≡◌, refl, List, [], ◌∷◌, ◌++◌, some, none, arith, Bool, true, false,
}
use ubuntu_elkhart_lake_pse.Ishtp.Types.{ok, Rb, Sys}
use ubuntu_elkhart_lake_pse.Ishtp.Hbm.{ishtp_hbm_cl_flow_control_req}
use ubuntu_elkhart_lake_pse.Ishtp.Rings.{
  start_read, flow_control_sent, ishtp_cl_read_start, ishtp_cl_io_rb_recycle,
}

-- A buffer but for its client and the number of its bytes that count.
abbrev pub body : Rb → Rb
body rb = record rb { cl = none; buf_idx = 0 }

-- Whether the body of a buffer passes a test, and the number of buffers of which it does.
abbrev pub passes : (Rb → Bool) → Rb → ℕ
passes f rb = elim (f (body rb)) [ true ↦ 1 | false ↦ 0 ]

abbrev pub count : (Rb → Bool) → List Rb → ℕ
count f [] = 0
count f (rb ∷ rbs) = passes f rb + count f rbs

count-append : (f : Rb → Bool) (xs ys : List Rb) → count f (xs ++ ys) ≡ count f xs + count f ys
count-append f [] ys = omega arith
count-append f (x ∷ xs) ys = omega (arith, count-append f xs ys)

count-append_one :
    (f : Rb → Bool) (xs : List Rb) (x : Rb) → count f (xs ++ x ∷ []) ≡ count f xs + passes f x
count-append_one f xs x = omega (arith, count-append f xs (x ∷ []))

-- These among the free buffers of the client and the posted ones.
abbrev pub buffers : (Rb → Bool) → Sys → ℕ
buffers f s = count f s.cl.free_rb_list + count f s.dev.read_list

-- A request for flow control: there is never more than one credit out, and no buffer moves.
pub flow_control_req_lem :
    (s : Sys)
    → s.cl.out_flow_ctrl_creds ≤ 1
    → ((ishtp_hbm_cl_flow_control_req s).1.cl.out_flow_ctrl_creds ≤ 1)
      × ((ishtp_hbm_cl_flow_control_req s).1.cl.free_rb_list ≡ s.cl.free_rb_list)
      × ((ishtp_hbm_cl_flow_control_req s).1.dev.read_list ≡ s.dev.read_list)
unfolding ishtp_hbm_cl_flow_control_req
flow_control_req_lem s h = ground arith

-- A request that succeeds leaves exactly one credit out.
pub flow_control_req_ok :
    (s : Sys) (n : ℕ)
    → s.cl.out_flow_ctrl_creds ≤ 1
    → (ishtp_hbm_cl_flow_control_req s).0 ≡ ok n
    → (ishtp_hbm_cl_flow_control_req s).1.cl.out_flow_ctrl_creds ≡ 1
unfolding ishtp_hbm_cl_flow_control_req
flow_control_req_ok s n h e = ground arith

-- A client and its device keep `n` buffers that pass the test `f`, and there is one credit out at most.
pub record IsServed (f : Rb → Bool) (n : ℕ) (s : Sys) : Type 0 where
  pub kept : buffers f s ≡ n
  pub credit : s.cl.out_flow_ctrl_creds ≤ 1

start_read-IsServed :
    (f : Rb → Bool) (n : ℕ) (s : Sys) (rb : Rb) (rest : List Rb)
    → s.cl.free_rb_list ≡ rb ∷ rest
    → IsServed f n s
    → IsServed f n (start_read s rb rest).1
unfolding start_read flow_control_sent
start_read-IsServed f n s rb rest e h =
    let fresh : Rb = record rb { cl = some s.cl.addr; buf_idx = 0 } in
    let t : Sys = record {
      dev = record (s.dev) { read_list = s.dev.read_list ++ fresh ∷ [] };
      cl = record (s.cl) { free_rb_list = rest };
    } in
    ground (
      arith,
      flow_control_req_lem t h.credit,
      count-append_one f s.dev.read_list fresh,
      count-append_one f rest fresh,
    )

read_start_from :
    (f : Rb → Bool) (n : ℕ) (s : Sys) (l : List Rb)
    → s.cl.free_rb_list ≡ l
    → IsServed f n s
    → IsServed f n (ishtp_cl_read_start s).1
unfolding ishtp_cl_read_start
read_start_from f n s [] e h = ground arith
read_start_from f n s (rb ∷ rest) e h = ground (arith, start_read-IsServed f n s rb rest e h)

-- Starting a read loses no buffer, changes none but for its client and its count, and makes none up, also
-- where it fails; and it never sends a second credit.
pub ishtp_cl_read_start-IsServed :
    (f : Rb → Bool) (n : ℕ) (s : Sys) → IsServed f n s → IsServed f n (ishtp_cl_read_start s).1
ishtp_cl_read_start-IsServed f n s h = read_start_from f n s s.cl.free_rb_list refl h

-- Recycling a buffer of a client adds this buffer to the free and the posted ones, with its memory and its
-- size, and neither loses nor changes one of the others nor makes one up, whether or not the credit could be
-- sent: for any test on buffers, the number of those that pass it goes up by one if the recycled one does, and
-- stays otherwise. The client and the number of its bytes, which posting a buffer sets, are left out. There
-- is never a second credit out.
pub ishtp_cl_io_rb_recycle-IsServed :
    (f : Rb → Bool) (n p : ℕ) (s : Sys) (rb : Rb)
    → rb.cl ≡ some p
    → IsServed f n s
    → IsServed f (n + passes f rb) (ishtp_cl_io_rb_recycle s rb).1
unfolding ishtp_cl_io_rb_recycle
ishtp_cl_io_rb_recycle-IsServed f n p s rb c h =
    let t : Sys = record s { cl = record (s.cl) { free_rb_list = s.cl.free_rb_list ++ rb ∷ [] } } in
    let grown : IsServed f (n + passes f rb) t =
      ground (arith, count-append_one f s.cl.free_rb_list rb) in
    ground (arith, grown, ishtp_cl_read_start-IsServed f (n + passes f rb) t grown)
