-- ===== src/Ishtp/Inbox/Blocks.antt =====
-- The messages in the blocks of the queue of received bus messages, src/intel-ish-hid-linux-6.5/ishtp/hbm.c.
use ubuntu_elkhart_lake_pse.Prelude.{
  ℕ, zero, suc, sym, drop, ◌+◌, ◌-◌, ◌*◌, ◌%◌, ◌≤◌, ◌<◌, ◌≡◌, refl, ap, ◌∙◌, true, false, List, [],
  ◌∷◌, ◌++◌, none, some, arith, ltb, ltb→lt, ◌==◌, get_or, length, length-append, take, Bool-cases,
  ◌⊎◌, inl, inr,
}
use ubuntu_elkhart_lake_pse.Ishtp.Inbox.{Inbox, store, fetch, queue_hbm, bh_hbm_work_fn}

-- The messages stand in the queue from a place on, one in each block.
abbrev pub Stored : (ℕ → ℕ) → ℕ → List (List ℕ) → Type 0
Stored fifo at [] = Unit {0}
Stored fifo at (m ∷ ms) =
    (fetch fifo at (length m) ≡ m) × (length m ≤ 128) × Stored fifo ((at + 128) % 8192) ms

pub record IsQueue (i : Inbox) (ms : List (List ℕ)) : Type 0 where
  pub block : i.rd_msg_fifo_head % 128 ≡ 0
  pub inside : i.rd_msg_fifo_head < 8192
  pub bounded : length ms ≤ 63
  pub end : i.rd_msg_fifo_tail ≡ (i.rd_msg_fifo_head + 128 * length ms) % 8192
  pub stored : Stored i.rd_msg_fifo i.rd_msg_fifo_head ms

store_in :
    (fifo : ℕ → ℕ) (at : ℕ) (msg : List ℕ) (i : ℕ)
    → i < length msg
    → store fifo at msg (at + i) ≡ get_or msg i 0
unfolding store
store_in fifo at msg i h = let e : at + i - at ≡ i = omega arith in rw e (ground arith)

store_out :
    (fifo : ℕ → ℕ) (at : ℕ) (msg : List ℕ) (a : ℕ)
    → (a < at) ⊎ (at + length msg ≤ a)
    → store fifo at msg a ≡ fifo a
unfolding store
store_out fifo at msg a h = ground arith

drop_step : (i : ℕ) (xs : List ℕ) → i < length xs → drop i xs ≡ get_or xs i 0 ∷ drop (i + 1) xs
drop_step i [] h = absurd (omega arith)
drop_step zero (x ∷ xs) h = refl
drop_step (suc i) (x ∷ xs) h =
    drop_step i xs (omega arith)
    ∙ ap (λ k. get_or xs i 0 ∷ drop k (x ∷ xs)) {x = suc (i + 1)} {y = suc i + 1} (omega arith)

drop_end : (xs : List ℕ) → drop (length xs) xs ≡ []
drop_end [] = refl
drop_end (x ∷ xs) = drop_end xs

-- What was stored is fetched.
fetch-store :
    (fifo : ℕ → ℕ) (at : ℕ) (msg : List ℕ) (i n : ℕ)
    → i + n ≡ length msg
    → fetch (store fifo at msg) (at + i) n ≡ drop i msg
unfolding fetch
fetch-store fifo at msg i zero h = let e : i ≡ length msg = omega arith in rw e (sym (drop_end msg))
fetch-store fifo at msg i (suc n) h =
    let e : (at + i) + 1 ≡ at + (i + 1) = omega arith in
    rw
      (
        store_in fifo at msg i (omega arith),
        drop_step i msg (omega arith),
        e,
        fetch-store fifo at msg (i + 1) n (omega arith),
      )
      refl

-- Storing elsewhere does not matter.
fetch-store_other :
    (fifo : ℕ → ℕ) (at : ℕ) (msg : List ℕ) (a n : ℕ)
    → (a + n ≤ at) ⊎ (at + length msg ≤ a)
    → fetch (store fifo at msg) a n ≡ fetch fifo a n
unfolding fetch
fetch-store_other fifo at msg a zero h = refl
fetch-store_other fifo at msg a (suc n) h =
    rw
      (store_out fifo at msg a (omega arith), fetch-store_other fifo at msg (a + 1) n (omega arith))
      refl

multiple : (at k to : ℕ) → at % 128 ≡ 0 → to ≡ (at + 128 * suc k) % 8192 → to % 128 ≡ 0
multiple at k to b e = omega arith

apart : (at k to : ℕ) → at < 8192 → suc k < 64 → to ≡ (at + 128 * suc k) % 8192 → at ≤ to → at < to
apart at k to l h e g = omega arith

further : (a b n : ℕ) → a % 128 ≡ 0 → b % 128 ≡ 0 → a < b → n ≤ 128 → a + n ≤ b
further a b n p q h k = omega arith

-- The block of the first message is another one.
other_block :
    (at k to n len : ℕ)
    → at % 128 ≡ 0
    → at < 8192
    → suc k < 64
    → to ≡ (at + 128 * suc k) % 8192
    → n ≤ 128
    → len ≤ 128
    → (at + n ≤ to) ⊎ (to + len ≤ at)
other_block at k to n len b l h e p q = elim (Bool-cases (ltb to at)) [
  | inl below ↦ inr (further to at len (multiple at k to b e) b (ltb→lt to at below) q)
  | inr above ↦
      inl (further at to n b (multiple at k to b e) (apart at k to l h e (ground (arith, above))) p)
]

-- A message goes into the block behind the last one, and leaves the others alone.
Stored-append :
    (fifo : ℕ → ℕ) (at to : ℕ) (ms : List (List ℕ)) (m : List ℕ)
    → at % 128 ≡ 0
    → at < 8192
    → length ms < 64
    → length m ≤ 128
    → to ≡ (at + 128 * length ms) % 8192
    → Stored fifo at ms
    → Stored (store fifo to m) at (ms ++ m ∷ [])
Stored-append fifo at to [] m b l k n e s =
    let here : to ≡ at + 0 = omega arith in
    let there : at ≡ to + 0 = omega arith in
    (
      ap (λ a. fetch (store fifo to m) a (length m)) there
          ∙ fetch-store fifo to m 0 (length m) (omega arith),
      n,
      tt,
    )
Stored-append fifo at to (x ∷ ms) m b l k n e s = (
  fetch-store_other fifo to m at (length x)
        (other_block at (length ms) to (length x) (length m) b l k e s.1 n)
      ∙ s.0,
  s.1,
  Stored-append fifo ((at + 128) % 8192) to ms m (omega arith) (omega arith) (omega arith) n
      (omega (arith, e)) s.2,
)

-- The next message, as the code fetches it.
take-fetch : (fifo : ℕ → ℕ) (at k n : ℕ) → k ≤ n → take k (fetch fifo at n) ≡ fetch fifo at k
unfolding fetch
take-fetch fifo at zero n h = refl
take-fetch fifo at (suc k) zero h = absurd (omega arith)
take-fetch fifo at (suc k) (suc n) h =
    ap (λ l. fifo at ∷ l) (take-fetch fifo (at + 1) k n (omega arith))

ne-eq-false : (a b : ℕ) → (a ≡ b → ⊥) → (a == b) ≡ false
ne-eq-false a b h = ground (arith, h)

eq-eq-true : (a b : ℕ) → a ≡ b → (a == b) ≡ true
eq-eq-true a b h = ground (arith, h)

full_test :
    (head tail k : ℕ)
    → head % 128 ≡ 0
    → head < 8192
    → k < 63
    → tail ≡ (head + 128 * k) % 8192
    → ((tail + 128) % 8192 == head) ≡ false
full_test head tail k b l h e = ne-eq-false _ _ (λ f. omega (arith, e, f))

empty_test :
    (head tail k : ℕ)
    → head < 8192
    → suc k ≤ 63
    → tail ≡ (head + 128 * suc k) % 8192
    → (head == tail) ≡ false
empty_test head tail k l h e = ne-eq-false _ _ (λ f. omega (arith, e, f))

-- With room left, a message comes last.
pub queued :
    (i : Inbox) (ms : List (List ℕ)) (m : List ℕ)
    → IsQueue i ms
    → length m ≤ 128
    → length ms < 63
    → IsQueue (queue_hbm i m) (ms ++ m ∷ [])
unfolding queue_hbm
queued i ms m q n k =
    rw (full_test i.rd_msg_fifo_head i.rd_msg_fifo_tail (length ms) q.block q.inside k q.end)
      (record {
        block = q.block;
        inside = q.inside;
        bounded = omega (arith, length-append ms (m ∷ []));
        end = omega (arith, q.end, length-append ms (m ∷ []));
        stored =
            Stored-append i.rd_msg_fifo i.rd_msg_fifo_head i.rd_msg_fifo_tail ms m q.block q.inside
              (omega (arith, k)) n q.end q.stored;
      })

-- With 63 messages, it is dropped.
pub dropped :
    (i : Inbox) (ms : List (List ℕ)) (m : List ℕ)
    → IsQueue i ms
    → length ms ≡ 63
    → queue_hbm i m ≡ i
unfolding queue_hbm
dropped i ms m q k =
    let full : (i.rd_msg_fifo_tail + 128) % 8192 ≡ i.rd_msg_fifo_head =
      omega (arith, q.end, q.inside, k) in
    rw (eq-eq-true _ _ full) refl

-- The work takes the first message.
pub took :
    (i : Inbox) (m : List ℕ) (ms : List (List ℕ))
    → IsQueue i (m ∷ ms)
    → (b : List ℕ) × ((bh_hbm_work_fn i).0 ≡ some b)
      × (take (length m) b ≡ m)
      × IsQueue (bh_hbm_work_fn i).1 ms
unfolding bh_hbm_work_fn
took i m ms q =
    let more =
      empty_test i.rd_msg_fifo_head i.rd_msg_fifo_tail (length ms) q.inside q.bounded q.end in
    (
      fetch i.rd_msg_fifo i.rd_msg_fifo_head 128,
      rw more refl,
      take-fetch i.rd_msg_fifo i.rd_msg_fifo_head (length m) 128 q.stored.1 ∙ q.stored.0,
      rw more (record {
        block = omega (arith, q.block);
        inside = omega arith;
        bounded = omega (arith, q.bounded);
        end = omega (arith, q.end);
        stored = q.stored.2;
      }),
    )

-- There is none.
pub idle :
    (i : Inbox) → IsQueue i [] → ((bh_hbm_work_fn i).0 ≡ none) × IsQueue (bh_hbm_work_fn i).1 []
unfolding bh_hbm_work_fn
idle i q =
    let same : i.rd_msg_fifo_head ≡ i.rd_msg_fifo_tail = omega (arith, q.end, q.inside) in
    rw (eq-eq-true _ _ same) (
      refl,
      record {
        block = q.block;
        inside = q.inside;
        bounded = q.bounded;
        end = q.end;
        stored = q.stored;
      },
    )
