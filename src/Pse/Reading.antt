-- ===== src/Pse/Reading.antt =====
-- Reading a message from /dev/pse in pieces.
use ubuntu_elkhart_lake_pse.Prelude.{
  ℕ, zero, suc, ◌+◌, ◌-◌, ◌≤◌, ◌<◌, ◌≡◌, sym, ap, ◌∙◌, true, false, List, [], ◌++◌, none, some, ltb,
  ◌==◌, take, drop, arith, length, Bool-cases, ltb→lt, inl, inr, take_split, drop-drop,
}
use ubuntu_elkhart_lake_pse.Ishtp.Types.{ok, enabled, cl_connected, Rb}
use ubuntu_elkhart_lake_pse.Pse.Types.{Bus, World, done, M, ◌>>=◌, pure, if◌then◌else◌}
use ubuntu_elkhart_lake_pse.Pse.File.{Activity, ReadCall, ReadResult, ishtp_pse_read}

-- What one call reads and what the others read.
pieces :
    (block : List ℕ) (n idx off : ℕ)
    → off + n < idx
    → take n (drop off block) ++ take (idx - (off + n)) (drop (off + n) block)
      ≡ take (idx - off) (drop off block)
pieces block n idx off h =
    ap (λ l. take n (drop off block) ++ take (idx - (off + n)) l) (sym (drop-drop off n block))
    ∙ sym (take_split n (idx - (off + n)) (drop off block))
    ∙ ap (λ k. take k (drop off block)) {x = n + (idx - (off + n))} {y = idx - off} (omega arith)

module _ {S : Type 0} (b : Bus S) where
  -- The connection is up and `rb` holds a message of the client at `q`, whose memory is there.
  pub record HasMessage (w : World S) (p q : ℕ) (rb : Rb) (block : List ℕ) : Type 0 where
    pub client : w.pse.cl ≡ some p
    pub device : w.pse.cl_device ≡ true
    pub alive : b.live p w.bus ≡ true
    pub up : b.dev_state w.bus ≡ enabled
    pub connected : b.cl_state p w.bus ≡ cl_connected
    pub unlocked : w.pse.lock ≡ false
    pub waiting : w.pse.rb ≡ some rb
    pub owner : rb.cl ≡ some q
    pub owned : b.live q w.bus ≡ true
    pub content : rb.content ≡ some block
    pub filled : rb.buf_idx ≤ length block

  abbrev pub read_call : ℕ → ℕ → ReadCall
  read_call n off = record {
    nonblock = false;
    ubuf = true;
    length = n;
    offset = off;
    copy_ok = true;
  }

  -- The state after the last byte was read: the buffer is the bus's again.
  abbrev pub consumed : World S → Rb → World S
  consumed w rb = record {
    pse = record (w.pse) { rb = none; lock = false };
    bus = (b.ishtp_cl_io_rb_recycle rb w.bus).1;
  }

  pub read_more :
      (w : World S) (p q : ℕ) (rb : Rb) (block : List ℕ) (n off : ℕ) (acts : List (Activity S))
      → HasMessage w p q rb block
      → 0 < n
      → off + n < rb.buf_idx
      → ishtp_pse_read b (read_call n off) acts w
        ≡ done (record { code = ok n; copied = take n (drop off block); offset = off + n }) w
  unfolding ishtp_pse_read
  read_more w p q rb block n off acts h k l = ground arith

  pub read_last :
      (w : World S) (p q : ℕ) (rb : Rb) (block : List ℕ) (n off : ℕ) (acts : List (Activity S))
      → HasMessage w p q rb block
      → 0 < n
      → off ≤ rb.buf_idx
      → rb.buf_idx ≤ off + n
      → ishtp_pse_read b (read_call n off) acts w
        ≡ done
            (record {
              code = ok (rb.buf_idx - off);
              copied = take (rb.buf_idx - off) (drop off block);
              offset = 0;
            })
            (consumed w rb)
  unfolding ishtp_pse_read
  read_last w p q rb block n off acts h k l m = ground arith

  -- A program that reads `n` bytes at a time, from offset `off`, until the driver starts over at 0.
  -- The fuel bounds the calls.
  pub read_all : ℕ → ℕ → ℕ → M S (List ℕ)
  read_all zero n off = pure []
  read_all (suc fuel) n off =
      let rest = λ (r : ReadResult). read_all fuel n r.offset in
      do
        r ← ishtp_pse_read b (read_call n off) []
        if r.offset == 0 then pure r.copied else do more ← rest r; pure (r.copied ++ more)

  -- Over a live connection and with the mutex free, reading a message in pieces of any positive
  -- size gives exactly the bytes of the message that were left, in order and without a wait, and
  -- then the buffer is recycled, once, and the driver holds no message. As many calls as bytes are
  -- left suffice.
  pub read_all_lem :
      (w : World S) (p q : ℕ) (rb : Rb) (block : List ℕ) (fuel n off : ℕ)
      → HasMessage w p q rb block
      → 0 < n
      → off < rb.buf_idx
      → rb.buf_idx - off ≤ fuel
      → read_all fuel n off w ≡ done (take (rb.buf_idx - off) (drop off block)) (consumed w rb)
  unfolding read_all
  read_all_lem w p q rb block zero n off h k l f = absurd (omega arith)
  read_all_lem w p q rb block (suc fuel) n off h k l f =
      elim (Bool-cases (ltb (off + n) rb.buf_idx)) [
        | inl t ↦
            let more : off + n < rb.buf_idx = ltb→lt _ _ t in
            ground (
              arith,
              read_more w p q rb block n off [] h k more,
              read_all_lem w p q rb block fuel n (off + n) h k more (omega arith),
              pieces block n rb.buf_idx off more,
            )
        | inr t ↦ ground (arith, read_last w p q rb block n off [] h k)
      ]
