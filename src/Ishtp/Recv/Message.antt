-- ===== src/Ishtp/Recv/Message.antt =====
-- Receiving a whole message over IPC, src/intel-ish-hid-linux-6.5/ishtp/client.c, fragment by fragment,
-- among the posted buffers of any clients.
use ubuntu_elkhart_lake_pse.Prelude.{
  ℕ, ◌+◌, ◌-◌, ◌%◌, ◌≤◌, ◌<◌, ◌≡◌, refl, ap, ◌∙◌, Bool, true, false, List, [], ◌∷◌, ◌++◌, Option,
  none, some, arith, length, take, append_assoc, append-nil, incr32,
}
use ubuntu_elkhart_lake_pse.Ishtp.Types.{Rb, Client, Sys, World}
use ubuntu_elkhart_lake_pse.Ishtp.Recv.{
  ishtp_read, overwrite, update, put_back, takes, hit, find_rb, deliver, recv_ishtp_cl_msg,
  after_search,
}
use ubuntu_elkhart_lake_pse.Ishtp.Recv.Buffer.{
  grown, take-overwrite, length-overwrite, deliver_more, deliver_last,
}
use ubuntu_elkhart_lake_pse.Ishtp.Recv.Search.{
  fragment, AllSkipped, find_rb-AllSkipped, AllSkipped-update,
}

-- A fragment as it arrives: its length, and the message registers.
abbrev pub Arrival : Type 0
Arrival = ℕ × List ℕ

-- The bytes of a message.
abbrev pub payload : List Arrival → List ℕ
payload [] = []
payload ((n, regs) ∷ fs) = take n regs ++ payload fs

-- Each fragment fits the registers, which are whole words, and all of them fit into `room` bytes.
abbrev pub Fits : ℕ → List Arrival → Type 0
Fits room [] = Unit
Fits room ((n, regs) ∷ fs) =
    (n ≤ 128) × (n ≤ length regs) × (length regs % 4 ≡ 0) × (n ≤ room) × Fits (room - n) fs

-- The fragments of one message, in order; the last one is marked as such.
pub recv_all : ℕ → ℕ → World → List Arrival → Option World
recv_all host fw w [] = some w
recv_all host fw w ((n, regs) ∷ []) = recv_ishtp_cl_msg w (fragment host fw n true) regs
recv_all host fw w ((n, regs) ∷ (f ∷ fs)) =
    elim (recv_ishtp_cl_msg w (fragment host fw n false) regs) [
      | none ↦ none
      | some w' ↦ recv_all host fw w' (f ∷ fs)
    ]

-- The buffer `rb` is the first posted one that takes a message from `fw` to `host`, and it holds the
-- bytes `acc` of it.
pub record Receiving (host fw p : ℕ) (pre post : List Rb) (w : World) (rb : Rb) (cl : Client)
    (block acc : List ℕ) : Type 0 where
  pub posted : w.dev.read_list ≡ pre ++ rb ∷ post
  pub skipped : AllSkipped w.heap host fw p pre
  pub owner : rb.cl ≡ some p
  pub present : w.heap p ≡ some cl
  pub at_home : cl.addr ≡ p
  pub taken : takes (fragment host fw 0 false) cl ≡ true
  pub content : rb.content ≡ some block
  pub sized : rb.size ≤ length block
  pub bounded : rb.buf_idx ≤ rb.size
  pub some_size : 0 < rb.size
  pub held : take rb.buf_idx block ≡ acc

module _ (host fw p : ℕ) (pre post : List Rb) where
  abbrev counted : Client → Client
  counted cl = record cl { recv_msg_num_frags = incr32 cl.recv_msg_num_frags }

  abbrev advanced : World → ℕ → List ℕ → List ℕ → Rb → Client → World
  advanced w n regs block rb cl = record w {
    dev = record (w.dev) {
      read_list = pre ++ grown (fragment host fw n false) regs block rb ∷ post;
    };
    heap = update w.heap p (some (counted cl));
  }

  found :
      (n : ℕ) (last : Bool) (w : World) (rb : Rb) (cl : Client) (block acc : List ℕ)
      → Receiving host fw p pre post w rb cl block acc
      → find_rb w.heap (fragment host fw n last) w.dev.read_list ≡ hit pre rb cl post
  found n last w rb cl block acc r =
      ap (find_rb w.heap (fragment host fw n last)) r.posted
      ∙ find_rb-AllSkipped w.heap host fw n p last pre post rb cl r.skipped r.owner r.present
          r.taken

  recv_more :
      (n : ℕ) (regs : List ℕ) (w : World) (rb : Rb) (cl : Client) (block acc : List ℕ)
      → n ≤ 128
      → n ≤ length regs
      → length regs % 4 ≡ 0
      → n ≤ rb.size - rb.buf_idx
      → Receiving host fw p pre post w rb cl block acc
      → recv_ishtp_cl_msg w (fragment host fw n false) regs ≡ some (advanced w n regs block rb cl)
  unfolding recv_ishtp_cl_msg after_search
  recv_more n regs w rb cl block acc a l m k r =
      let s : Sys = record { dev = w.dev; cl = cl } in
      ground (
        arith,
        found n false w rb cl block acc r,
        deliver_more (fragment host fw n false) regs block s pre post rb refl r.content r.some_size
            (omega (arith, r.bounded)),
      )

  -- The state after a fragment.
  Receiving-more :
      (n : ℕ) (regs : List ℕ) (w : World) (rb : Rb) (cl : Client) (block acc : List ℕ)
      → n ≤ length regs
      → length regs % 4 ≡ 0
      → n ≤ rb.size - rb.buf_idx
      → Receiving host fw p pre post w rb cl block acc
      → Receiving host fw p pre post
          (advanced w n regs block rb cl)
          (grown (fragment host fw n false) regs block rb)
          (counted cl)
          (overwrite block rb.buf_idx (ishtp_read regs n))
          (acc ++ take n regs)
  unfolding takes
  Receiving-more n regs w rb cl block acc l m k r = record {
    posted = refl;
    skipped = AllSkipped-update w.heap host fw p (some (counted cl)) pre r.skipped;
    owner = r.owner;
    present = ground arith;
    at_home = r.at_home;
    taken = r.taken;
    content = refl;
    sized = omega (
      arith,
      length-overwrite block regs rb.buf_idx n (omega (arith, r.bounded, r.sized)) l m,
      r.sized,
    );
    bounded = omega (arith, r.bounded);
    some_size = r.some_size;
    held =
        take-overwrite block regs rb.buf_idx n (omega (arith, r.bounded, r.sized)) l m
        ∙ ap (λ t. t ++ take n regs) r.held;
  }

  -- What the client has after the last fragment.
  abbrev pub Received : Client → List ℕ → Option World → Type 0
  Received cl message o =
      (w : World) × (cl' : Client) × (rb : Rb) × (block : List ℕ) × (o ≡ some w)
      × (w.heap p ≡ some cl')
      × (cl'.in_process_list ≡ cl.in_process_list ++ rb ∷ [])
      × (rb.content ≡ some block)
      × (take rb.buf_idx block ≡ message)

  recv_last :
      (n : ℕ) (regs : List ℕ) (w : World) (rb : Rb) (cl : Client) (block acc : List ℕ)
      → n ≤ 128
      → n ≤ length regs
      → length regs % 4 ≡ 0
      → n ≤ rb.size - rb.buf_idx
      → Receiving host fw p pre post w rb cl block acc
      → Received cl (acc ++ take n regs) (recv_ishtp_cl_msg w (fragment host fw n true) regs)
  unfolding recv_ishtp_cl_msg after_search
  recv_last n regs w rb cl block acc a l m k r =
      let s : Sys = record { dev = w.dev; cl = cl } in
      let hdr = fragment host fw n true in
      let t = deliver hdr regs s pre rb post in
      let (appended, home) =
        deliver_last hdr regs block s pre post rb refl r.content r.some_size
          (omega (arith, r.bounded)) in
      (
        put_back w t,
        t.cl,
        grown hdr regs block rb,
        overwrite block rb.buf_idx (ishtp_read regs n),
        ground (arith, found n true w rb cl block acc r),
        ground (arith, home, r.at_home),
        appended,
        refl,
        take-overwrite block regs rb.buf_idx n (omega (arith, r.bounded, r.sized)) l m
            ∙ ap (λ t. t ++ take n regs) r.held,
      )

  recv_all_step :
      (w w' : World) (n : ℕ) (regs : List ℕ) (f : Arrival) (fs : List Arrival)
      → recv_ishtp_cl_msg w (fragment host fw n false) regs ≡ some w'
      → recv_all host fw w ((n, regs) ∷ (f ∷ fs)) ≡ recv_all host fw w' (f ∷ fs)
  unfolding recv_all
  recv_all_step w w' n regs f fs e =
      ap
        (λ o. elim o as (λ x. Option World) [
          | none ↦ none
          | some w' ↦ recv_all host fw w' (f ∷ fs)
        ])
        e

  -- Where a posted buffer is the first that takes the messages of a firmware client to a connected
  -- client: a message whose fragments arrive in order and fit into the buffer is received whole:
  -- the buffer is appended to the client's list of received messages, and the bytes that it counts
  -- are those that it held before, if it held any, and then the fragments' bytes, in order. No
  -- freed memory is used.
  pub recv_all_lem :
      (fs : List Arrival) (f : Arrival) (w : World) (rb : Rb) (cl : Client) (block acc : List ℕ)
      → Fits (rb.size - rb.buf_idx) (f ∷ fs)
      → Receiving host fw p pre post w rb cl block acc
      → Received cl (acc ++ payload (f ∷ fs)) (recv_all host fw w (f ∷ fs))
  unfolding recv_all
  recv_all_lem [] (n, regs) w rb cl block acc (a, l, m, k, q) r =
      rw (append-nil (take n regs)) (recv_last n regs w rb cl block acc a l m k r)
  recv_all_lem (f ∷ fs) (n, regs) w rb cl block acc (a, l, m, k, q) r =
      let left : rb.size - (rb.buf_idx + n) ≡ rb.size - rb.buf_idx - n = omega arith in
      rw
        (
          recv_all_step w _ n regs f fs (recv_more n regs w rb cl block acc a l m k r),
          ← append_assoc acc (take n regs) (payload (f ∷ fs)),
        )
        (recv_all_lem fs f (advanced w n regs block rb cl)
          (grown (fragment host fw n false) regs block rb) (counted cl)
          (overwrite block rb.buf_idx (ishtp_read regs n)) (acc ++ take n regs) (rw left q)
          (Receiving-more n regs w rb cl block acc l m k r))
