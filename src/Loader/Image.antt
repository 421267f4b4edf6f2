-- ===== src/Loader/Image.antt =====
-- The loop that transfers the image, src/intel-ish-hid-linux-6.5/ishtp-fw-loader.c: how it cuts, and where it does not end.
use ubuntu_elkhart_lake_pse.Prelude.{
  ℕ, zero, suc, ◌+◌, ◌-◌, ◌%◌, ◌≤◌, ◌<◌, ◌≡◌, refl, ap, ◌∙◌, sym, Bool, Bool-cases, true, false,
  not, List, [], ◌∷◌, ◌++◌, map, arith, inl, inr, ltb, ltb→lt, ◌==◌, length, take, drop,
  append_assoc, append-nil, take-append-drop, drop-drop, length-take, length-drop, nil_of_length,
  if◌then◌else◌,
}
use ubuntu_elkhart_lake_pse.Ishtp.Types.{Code, ok, err}
use ubuntu_elkhart_lake_pse.Loader.{
  Sent, Loader, Shim, Outcome, done, endless, ◌>>=◌, loader_cl_send,
}
use ubuntu_elkhart_lake_pse.Loader.Xfer.{Courier, xfer_loop, dma_payload}
use ubuntu_elkhart_lake_pse.Loader.Exchange.{IsAcked, send_acked}

-- A piece of the image, and how it is announced.
pub record Piece : Type 0 where
  pub offset : ℕ
  pub size : ℕ
  pub is_last : Bool
  pub bytes : List ℕ

abbrev pub carried : Courier → Piece → Sent
carried carry p = carry p.offset p.size p.is_last p.bytes

abbrev pub is_empty : List Piece → Bool
is_empty [] = true
is_empty (p ∷ ps) = false

-- The pieces are `rest`, cut at their offsets from `at` on, none of them empty or longer than `most`;
-- the last one, and no other, is marked as the last.
abbrev pub Covers : ℕ → ℕ → List Piece → List ℕ → Type 0
Covers most at [] rest = rest ≡ []
Covers most at (p ∷ ps) rest =
    (p.offset ≡ at)
    × (p.size ≡ length p.bytes)
    × (0 < p.size)
    × (p.size ≤ most)
    × (p.is_last ≡ is_empty ps)
    × ((more : List ℕ) × (rest ≡ p.bytes ++ more) × Covers most (at + p.size) ps more)

nil_append : (xs ys : List ℕ) → [] ≡ xs ++ ys → length xs ≡ 0
nil_append [] ys e = refl
nil_append (x ∷ xs) ys e = absurd (cc)

-- Nothing is left if and only if there are no pieces.
Covers-is_empty :
    (most at : ℕ) (ps : List Piece) (rest : List ℕ)
    → Covers most at ps rest
    → is_empty ps ≡ (length rest == 0)
Covers-is_empty most at [] rest e = rw e refl
Covers-is_empty most at (p ∷ ps) [] (a, b, c, d, e, (more, f, g)) =
    absurd (omega (arith, nil_append p.bytes more f, b, c))
Covers-is_empty most at (p ∷ ps) (x ∷ rest) c = ground arith

-- The hub acknowledges every message.
abbrev pub Acknowledges : Shim → Type 0
Acknowledges shim = (h : List Sent) → IsAcked (shim h)

-- The loop ended well and sent just such pieces after what was sent before.
abbrev pub Carried : Courier → ℕ → ℕ → List ℕ → Loader → Outcome Code → Type 0
Carried carry most at rest s o =
    (n : ℕ) × (t : Loader) × (ps : List Piece) × (o ≡ done (ok n) t)
    × (t.sent ≡ s.sent ++ map (carried carry) ps)
    × (t.late ≡ [])
    × Covers most at ps rest

-- How the loop cuts at an offset.
abbrev pub last_at : ℕ → List ℕ → ℕ → Bool
last_at payload image at = not (ltb ((at + payload) % 4294967296) (length image))

abbrev pub size_at : ℕ → List ℕ → ℕ → ℕ
size_at payload image at = if last_at payload image at then length image - at else payload

loop_goes_on :
    (shim : Shim) (carry : Courier) (payload : ℕ) (image : List ℕ) (fuel at n : ℕ) (s t : Loader)
    → ltb at (length image) ≡ true
    → loader_cl_send shim
        (carry at
          (size_at payload image at)
          (last_at payload image at)
          (take (size_at payload image at) (drop at image)))
        (0 ∷ 0 ∷ 0 ∷ 0 ∷ [])
        4
        s
      ≡ done (ok 4) t
    → xfer_loop (suc fuel) shim carry payload image at (ok n) s
      ≡ xfer_loop fuel shim carry payload image (at + size_at payload image at) (ok 4) t
unfolding xfer_loop
loop_goes_on shim carry payload image fuel at n s t e p =
    rw (e, xfer_loop)
      (ap
        (λ (x : Outcome Code). x >>= λ c t. elim c as (λ y. Outcome Code) [
          | err e ↦ done (err e) (record t { flag_retry = true })
          | ok n ↦ xfer_loop fuel shim carry payload image (at + size_at payload image at) (ok n) t
        ])
        p)

module _ (shim : Shim) (acks : Acknowledges shim) (carry : Courier) (payload : ℕ) (image : List ℕ)
    (some_payload : 0 < payload) (bounded : length image + payload < 4294967296) where
  -- The piece at an offset.
  abbrev piece_at : ℕ → Piece
  piece_at at = record {
    offset = at;
    size = size_at payload image at;
    is_last = last_at payload image at;
    bytes = take (size_at payload image at) (drop at image);
  }

  pub size_at-bounds :
      (at : ℕ)
      → at < length image
      → (0 < size_at payload image at)
        × (size_at payload image at ≤ payload)
        × (size_at payload image at ≤ length image - at)
        × (last_at payload image at ≡ (length image - (at + size_at payload image at) == 0))
  size_at-bounds at k = ground arith

  loop_ends :
      (fuel at n : ℕ) (s : Loader)
      → ltb at (length image) ≡ false
      → xfer_loop (suc fuel) shim carry payload image at (ok n) s ≡ done (ok n) s
  unfolding xfer_loop
  loop_ends fuel at n s e = rw (e, xfer_loop) refl

  -- The piece, and the pieces behind it.
  piece-Covers :
      (at : ℕ) (ps : List Piece)
      → at < length image
      → Covers payload
          (at + size_at payload image at)
          ps
          (drop (at + size_at payload image at) image)
      → Covers payload at (piece_at at ∷ ps) (drop at image)
  piece-Covers at ps k c =
      let (a, b, d, e) = size_at-bounds at k in
      let left : length (drop (at + size_at payload image at) image)
          ≡ length image - (at + size_at payload image at) =
        length-drop (at + size_at payload image at) image in
      (
        refl,
        omega (
          arith,
          length-take (size_at payload image at) (drop at image),
          length-drop at image,
          d,
        ),
        a,
        b,
        e
            ∙ sym (
                Covers-is_empty payload (at + size_at payload image at) ps _ c
                ∙ ap (λ x. x == 0) left),
        (
          drop (at + size_at payload image at) image,
          sym (take-append-drop (size_at payload image at) (drop at image))
              ∙ ap (λ x. take (size_at payload image at) (drop at image) ++ x)
                  (drop-drop at (size_at payload image at) image),
          c,
        ),
      )

  pub xfer_loop-Carried :
      (fuel at n : ℕ) (s : Loader)
      → length image - at < fuel
      → s.late ≡ []
      → Carried carry payload at
          (drop at image)
          s
          (xfer_loop fuel shim carry payload image at (ok n) s)
  xfer_loop-Carried zero at n s k l = absurd (omega (arith, k))
  xfer_loop-Carried (suc fuel) at n s k l = elim (Bool-cases (ltb at (length image))) [
    | inr e ↦ (
      n,
      s,
      [],
      loop_ends fuel at n s e,
      sym (append-nil s.sent),
      l,
      nil_of_length (drop at image) (ground (arith, length-drop at image)),
    )
    | inl e ↦
        let within : at < length image = ltb→lt at (length image) e in
        let (a, b, c, d) = size_at-bounds at within in
        let out = carried carry (piece_at at) in
        let (t, p, sent, late) =
          send_acked shim out (0 ∷ 0 ∷ 0 ∷ 0 ∷ []) s l (acks (s.sent ++ out ∷ [])) in
        let (m, u, ps, q, all, none_late, covers) =
          xfer_loop-Carried fuel (at + size_at payload image at) 4 t (omega (arith, k, a)) late in
        (
          m,
          u,
          piece_at at ∷ ps,
          loop_goes_on shim carry payload image fuel at n s t e p ∙ q,
          all
              ∙ ap (λ x. x ++ map (carried carry) ps) sent
              ∙ append_assoc s.sent (out ∷ []) (map (carried carry) ps),
          none_late,
          piece-Covers at ps within covers,
        )
  ]

pub dma_payload-le : (n m k : ℕ) → dma_payload n m k ≤ n
unfolding dma_payload
dma_payload-le n m k = omega arith

-- Pieces of no bytes: the loop never gets beyond the offset at which it is, however long it runs.
pub empty_payload_endless :
    (fuel : ℕ) (shim : Shim) (carry : Courier) (image : List ℕ) (n : ℕ) (s : Loader)
    → Acknowledges shim
    → 0 < length image
    → length image < 4294967296
    → s.late ≡ []
    → xfer_loop fuel shim carry 0 image 0 (ok n) s ≡ endless
unfolding xfer_loop
empty_payload_endless zero shim carry image n s acks some_byte k l = refl
empty_payload_endless (suc fuel) shim carry image n s acks some_byte k l =
    let more : ltb 0 (length image) ≡ true = ground (arith, some_byte) in
    let here : 0 + size_at 0 image 0 ≡ 0 = ground (arith, some_byte, k) in
    let out =
      carry 0 (size_at 0 image 0) (last_at 0 image 0) (take (size_at 0 image 0) (drop 0 image)) in
    let (t, p, sent, late) =
      send_acked shim out (0 ∷ 0 ∷ 0 ∷ 0 ∷ []) s l (acks (s.sent ++ out ∷ [])) in
    loop_goes_on shim carry 0 image fuel 0 n s t more p
    ∙ ap (λ i. xfer_loop fuel shim carry 0 image i (ok 4) t) here
    ∙ empty_payload_endless fuel shim carry image 4 t acks some_byte k late
