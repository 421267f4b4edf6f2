-- ===== src/Examples/Can/Frames.antt =====
-- What is shown of a frame, examples/can.c.
use ubuntu_elkhart_lake_pse.Prelude.{
  ℕ, zero, suc, ◌+◌, ◌≤◌, ◌<◌, ◌≡◌, refl, ap, ◌∙◌, List, [], ◌∷◌, ◌++◌, none, some, arith, length,
  take, drop, get_or, take-append_left, ltb, Bool-cases, inl, inr,
}
use ubuntu_elkhart_lake_pse.Prelude.Int.{ℤ, pos}
use ubuntu_elkhart_lake_pse.Prelude.Bytes.{
  be_bytes32, hex_byte, le_bytes, from_le, from_le-le_bytes_4,
}
use ubuntu_elkhart_lake_pse.Examples.Heci.{Body, can_command, heci_can_command}
use ubuntu_elkhart_lake_pse.Examples.Program.{Os, frame_line, ◌>>◌, pure}
use ubuntu_elkhart_lake_pse.Examples.Client.{fresh_body, pse_command_checked}
use ubuntu_elkhart_lake_pse.Examples.Can.{
  can_read, can_body, frame_digits, frame_text, show_frame, can_recv, zeros,
}

abbrev pub hex_digits : List ℕ → List ℕ
hex_digits [] = []
hex_digits (b ∷ bs) = hex_byte b ++ hex_digits bs

take_next :
    (n i : ℕ) (xs : List ℕ)
    → i < length xs
    → take (suc n) (drop i xs) ≡ get_or xs i 0 ∷ take n (drop (i + 1) xs)
take_next n i [] h = absurd (omega arith)
take_next n zero (x ∷ xs) h = refl
take_next n (suc i) (x ∷ xs) h =
    take_next n i xs (omega arith)
    ∙ ap (λ k. get_or xs i 0 ∷ take n (drop k (x ∷ xs))) {x = suc (i + 1)} {y = suc i + 1}
        (omega arith)

frame_digits_lem :
    (payload : List ℕ) (n i : ℕ)
    → n + i ≤ 8
    → 15 ≤ length payload
    → frame_digits payload n i ≡ some (hex_digits (take n (drop (7 + i) payload)))
unfolding frame_digits
frame_digits_lem payload zero i h l = refl
frame_digits_lem payload (suc n) i h l =
    let e : (7 + i) + 1 ≡ 7 + (i + 1) = omega arith in
    rw (take_next n (7 + i) payload (omega arith), e)
      (ground (arith, frame_digits_lem payload n (i + 1) (omega arith) l))

frame_digits_overflow :
    (payload : List ℕ) (n i : ℕ) → 8 < n + i → i ≤ 8 → frame_digits payload n i ≡ none
unfolding frame_digits
frame_digits_overflow payload zero i h l = absurd (omega arith)
frame_digits_overflow payload (suc n) i h l = elim (Bool-cases (ltb 7 i)) [
  | inl e ↦ ground arith
  | inr e ↦ ground (arith, frame_digits_overflow payload n (i + 1))
]

length-can_body : (id len data_0 data_1 : ℕ) → length (can_body id len data_0 data_1).payload ≡ 224
unfolding can_body le_bytes be_bytes32
length-can_body id len data_0 data_1 = refl

can_body_fields :
    (id len data_0 data_1 : ℕ)
    → id < 4294967296
    → (get_or (can_body id len data_0 data_1).payload 6 0 ≡ len)
      × (from_le (take 4 (can_body id len data_0 data_1).payload) ≡ id)
      × (drop (7 + 0) (can_body id len data_0 data_1).payload
          ≡ (be_bytes32 data_0 ++ be_bytes32 data_1) ++ zeros 209)
unfolding can_body le_bytes be_bytes32
can_body_fields id len data_0 data_1 l = (refl, from_le-le_bytes_4 id l, refl)

frame_text-frame_digits :
    (payload : List ℕ) (n : ℕ) → 0 < n → frame_text payload n ≡ frame_digits payload n 0
unfolding frame_text
frame_text-frame_digits payload n h = ground (arith, h)

-- A frame of 1 to 8 bytes that was built for sending is shown as it was meant: with its id, its length and
-- the first bytes of its two data words, the highest byte of each word first.
pub show-can_body :
    {S : Type 0} (os : Os S) (id len data_0 data_1 : ℕ) (s : S)
    → 0 < len
    → len ≤ 8
    → id < 4294967296
    → show_frame os (can_body id len data_0 data_1) s
      ≡ (os.print
              (frame_line id len (hex_digits (take len (be_bytes32 data_0 ++ be_bytes32 data_1))))
            >> pure (pos 0))
          s
unfolding show_frame be_bytes32
show-can_body os id len data_0 data_1 s some_byte h l =
    let body = (can_body id len data_0 data_1).payload in
    let (len_byte, id_bytes, words) = can_body_fields id len data_0 data_1 l in
    rw
      (
        len_byte,
        id_bytes,
        frame_text-frame_digits body len some_byte,
        frame_digits_lem body len 0 (omega arith)
            (omega (arith, length-can_body id len data_0 data_1)),
        words,
        take-append_left len (be_bytes32 data_0 ++ be_bytes32 data_1) (zeros 209)
            (omega (arith, h)),
      )
      refl

-- A response whose frame claims more than eight bytes makes `can_recv` write past the end of its text.
pub can_recv_overflow :
    {S : Type 0} (os : Os S) (fd : ℤ) (device : ℕ) (s t : S) (body : Body)
    → pse_command_checked os fd heci_can_command
        (can_command can_read device 0)
        none
        (some fresh_body)
        s
      ≡ some ((pos 1, some body), t)
    → 8 < get_or body.payload 6 0
    → can_recv os fd device s ≡ none
unfolding can_recv show_frame frame_text
can_recv_overflow os fd device s t body e h =
    ground (arith, frame_digits_overflow body.payload (get_or body.payload 6 0) 0)
