-- ===== src/Ishtp/Recv/Buffer.antt =====
-- What a fragment does to the buffer that takes it, src/intel-ish-hid-linux-6.5/ishtp/client.c.
use ubuntu_elkhart_lake_pse.Prelude.{
  ℕ, zero, suc, ◌+◌, ◌*◌, ◌/◌, ◌%◌, ◌≤◌, ◌<◌, ◌≡◌, refl, ap, ◌∙◌, true, false, List, [], ◌∷◌, ◌++◌,
  some, arith, length, take, drop, length-take, length-drop, length-append, take_split, incr32,
  decr8,
}
use ubuntu_elkhart_lake_pse.Ishtp.Types.{ok, MsgHdr, Rb, Sys}
use ubuntu_elkhart_lake_pse.Ishtp.Hbm.{ishtp_hbm_cl_flow_control_req}
use ubuntu_elkhart_lake_pse.Ishtp.Recv.{
  ishtp_read, overwrite, post_next, ishtp_cl_read_complete, complete, accept, deliver,
}

-- The buffer with a fragment behind what it held.
abbrev pub grown : MsgHdr → List ℕ → List ℕ → Rb → Rb
grown hdr regs block rb = record rb {
  content = some (overwrite block rb.buf_idx (ishtp_read regs hdr.length));
  buf_idx = rb.buf_idx + hdr.length;
}

take-prefix :
    (n k : ℕ) (ys zs : List ℕ) → n ≤ k → k ≤ length ys → take n (take k ys ++ zs) ≡ take n ys
take-prefix zero k ys zs m o = refl
take-prefix (suc n) zero ys zs m o = absurd (omega arith)
take-prefix (suc n) (suc k) [] zs m o = absurd (omega arith)
take-prefix (suc n) (suc k) (y ∷ ys) zs m o =
    ap (◌∷◌ y) (take-prefix n k ys zs (omega arith) (omega arith))

drop-prefix : (i : ℕ) (xs zs : List ℕ) → i ≤ length xs → drop i (take i xs ++ zs) ≡ zs
drop-prefix zero xs zs l = refl
drop-prefix (suc i) [] zs l = absurd (omega arith)
drop-prefix (suc i) (x ∷ xs) zs l = drop-prefix i xs zs (omega arith)

take-take_append :
    (i n k : ℕ) (xs ys zs : List ℕ)
    → i ≤ length xs
    → n ≤ k
    → k ≤ length ys
    → take (i + n) (take i xs ++ (take k ys ++ zs)) ≡ take i xs ++ take n ys
take-take_append i n k xs ys zs l m o =
    take_split i n (take i xs ++ (take k ys ++ zs))
    ∙ rw (
      take-prefix i i xs (take k ys ++ zs) (omega arith) l,
      drop-prefix i xs (take k ys ++ zs) l,
      take-prefix n k ys zs m o,
    )

-- Words hold the fragment, if the registers are whole words.
words :
    (n r : ℕ)
    → n ≤ r
    → r % 4 ≡ 0
    → (n ≤ 4 * ((n + 3) / 4)) × (4 * ((n + 3) / 4) ≤ r) × (4 * ((n + 3) / 4) ≤ n + 3)
words n r h m = ground arith

-- A fragment is appended: behind what the buffer held are exactly the bytes of the fragment.
pub take-overwrite :
    (block regs : List ℕ) (i n : ℕ)
    → i ≤ length block
    → n ≤ length regs
    → length regs % 4 ≡ 0
    → take (i + n) (overwrite block i (ishtp_read regs n)) ≡ take i block ++ take n regs
unfolding ishtp_read overwrite
take-overwrite block regs i n h l m =
    let (a, c, d) = words n (length regs) l m in
    take-take_append i n (4 * ((n + 3) / 4)) block regs _ h a c

-- Copying whole words writes at most three bytes behind the end of a buffer that the fragment fits.
pub length-overwrite :
    (block regs : List ℕ) (i n : ℕ)
    → i + n ≤ length block
    → n ≤ length regs
    → length regs % 4 ≡ 0
    → (length block ≤ length (overwrite block i (ishtp_read regs n)))
      × (length (overwrite block i (ishtp_read regs n)) ≤ length block + 3)
unfolding ishtp_read overwrite
length-overwrite block regs i n h l m =
    let got = take (4 * ((n + 3) / 4)) regs in
    omega (
      arith,
      words n (length regs) l m,
      length-append (take i block) (got ++ drop (i + length got) block),
      length-append got (drop (i + length got) block),
      length-take i block,
      length-drop (i + length got) block,
      length-take (4 * ((n + 3) / 4)) regs,
    )

-- A fragment before the last.
pub deliver_more :
    (hdr : MsgHdr) (regs block : List ℕ) (s : Sys) (pre post : List Rb) (rb : Rb)
    → hdr.msg_complete ≡ false
    → rb.content ≡ some block
    → 0 < rb.size
    → rb.buf_idx + hdr.length ≤ rb.size
    → deliver hdr regs s pre rb post ≡ record {
      dev = record (s.dev) { read_list = pre ++ grown hdr regs block rb ∷ post };
      cl = record (s.cl) { recv_msg_num_frags = incr32 s.cl.recv_msg_num_frags };
    }
unfolding deliver accept
deliver_more hdr regs block s pre post rb c e z f = ground arith

flow_control-kept :
    (s : Sys)
    → ((ishtp_hbm_cl_flow_control_req s).1.cl.in_process_list ≡ s.cl.in_process_list)
      × ((ishtp_hbm_cl_flow_control_req s).1.cl.addr ≡ s.cl.addr)
unfolding ishtp_hbm_cl_flow_control_req
flow_control-kept s = ground arith

-- What posting the next buffer asks of flow control.
posted : Sys → Rb → List Rb → Sys
posted s rb rest = record {
  dev = record (s.dev) {
    read_list = s.dev.read_list ++ record rb { cl = some s.cl.addr; buf_idx = 0 } ∷ [];
  };
  cl = record (s.cl) { free_rb_list = rest };
}

post_next_from-kept :
    (s : Sys) (l : List Rb)
    → s.cl.free_rb_list ≡ l
    → ((post_next s).cl.in_process_list ≡ s.cl.in_process_list)
      × ((post_next s).cl.addr ≡ s.cl.addr)
unfolding post_next posted
post_next_from-kept s [] e = ground arith
post_next_from-kept s (rb ∷ rest) e = ground (arith, flow_control-kept (posted s rb rest))

-- The last fragment.
pub deliver_last :
    (hdr : MsgHdr) (regs block : List ℕ) (s : Sys) (pre post : List Rb) (rb : Rb)
    → hdr.msg_complete ≡ true
    → rb.content ≡ some block
    → 0 < rb.size
    → rb.buf_idx + hdr.length ≤ rb.size
    → ((deliver hdr regs s pre rb post).cl.in_process_list
        ≡ s.cl.in_process_list ++ grown hdr regs block rb ∷ [])
      × ((deliver hdr regs s pre rb post).cl.addr ≡ s.cl.addr)
unfolding deliver accept complete ishtp_cl_read_complete
deliver_last hdr regs block s pre post rb c e z f =
    let t : Sys = record {
      dev = record (s.dev) { read_list = pre ++ post };
      cl = record (s.cl) { status = ok 0; out_flow_ctrl_creds = decr8 s.cl.out_flow_ctrl_creds };
    } in
    ground (arith, post_next_from-kept t s.cl.free_rb_list refl)
