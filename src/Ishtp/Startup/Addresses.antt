-- ===== src/Ishtp/Startup/Addresses.antt =====
-- The addresses that a map of clients stands for, and how `find_next_bit` goes through them.
use ubuntu_elkhart_lake_pse.Prelude.{
  ℕ, suc, ◌+◌, ◌-◌, ◌≤◌, ◌<◌, ◌≡◌, refl, ap, ◌∙◌, Bool, true, false, ◌&&◌, List, [], ◌∷◌, arith,
  leb, if◌then◌else◌, get_or, length, Bool-cases, inl, inr,
}
use ubuntu_elkhart_lake_pse.Ishtp.Startup.Exchange.{find_from, find_next_bit, weight}

-- The set bits from `start` on, where the map begins with bit `i`.
pub bits_from : List Bool → ℕ → ℕ → List ℕ
bits_from [] i start = []
bits_from (b ∷ bs) i start =
    let rest = bits_from bs (i + 1) start in if b && leb start i then i ∷ rest else rest

unfoldable pub addresses : List Bool → List ℕ
unfolding bits_from
addresses m = bits_from m 0 0

abbrev pub head_or : ℕ → List ℕ → ℕ
head_or d [] = d
head_or d (a ∷ rest) = a

find_from_lem :
    (m : List Bool) (i start : ℕ)
    → find_from m i start ≡ head_or (i + length m) (bits_from m i start)
unfolding find_from bits_from
find_from_lem [] i start = omega arith
find_from_lem (b ∷ bs) i start =
    let e : i + 1 + length bs ≡ i + suc (length bs) = omega arith in
    elim (Bool-cases (b && leb start i)) [
      | inl t ↦ rw t refl
      | inr f ↦ rw (f, find_from_lem bs (i + 1) start, e) refl
    ]

pub find_next_bit_lem :
    (m : List Bool) (start : ℕ)
    → length m ≡ 256
    → find_next_bit m start ≡ head_or 256 (bits_from m 0 start)
unfolding find_next_bit
find_next_bit_lem m start l =
    let e : 0 + length m ≡ 256 = omega (arith, l) in
    find_from_lem m 0 start ∙ ap (λ d. head_or d (bits_from m 0 start)) e

-- Where the search starts before the map does not matter.
bits_from_low : (m : List Bool) (i s t : ℕ) → s ≤ i → t ≤ i → bits_from m i s ≡ bits_from m i t
unfolding bits_from
bits_from_low [] i s t h k = refl
bits_from_low (b ∷ bs) i s t h k =
    ground (arith, bits_from_low bs (i + 1) s t (omega arith) (omega arith))

pub bits_from_bounds :
    (m : List Bool) (i s a : ℕ) (r : List ℕ)
    → bits_from m i s ≡ a ∷ r
    → (i ≤ a) × (a < i + length m) × (get_or m (a - i) false ≡ true)
unfolding bits_from
bits_from_bounds [] i s a r e = absurd (ground (arith, e))
bits_from_bounds (b ∷ bs) i s a r e = elim (Bool-cases (b && leb s i)) [
  | inl t ↦ ground (arith, e, t)
  | inr f ↦
      let found : bits_from bs (i + 1) s ≡ a ∷ r = rw f at e in
      let (low, high, set) = bits_from_bounds bs (i + 1) s a r found in
      let step : a - i ≡ suc (a - (i + 1)) = omega (arith, low) in
      (omega (arith, low), omega (arith, high), rw step set)
]

-- Behind the first one.
pub bits_from_next :
    (m : List Bool) (i s a : ℕ) (r : List ℕ) → bits_from m i s ≡ a ∷ r → bits_from m i (a + 1) ≡ r
unfolding bits_from
bits_from_next [] i s a r e = absurd (ground (arith, e))
bits_from_next (b ∷ bs) i s a r e = elim (Bool-cases (b && leb s i)) [
  | inl t ↦ ground (arith, e, t, bits_from_low bs (i + 1) s (i + 1))
  | inr f ↦
      let found : bits_from bs (i + 1) s ≡ a ∷ r = rw f at e in
      ground (arith, bits_from_next bs (i + 1) s a r found, bits_from_bounds bs (i + 1) s a r found)
]

length-bits_from : (m : List Bool) (i : ℕ) → length (bits_from m i 0) ≡ weight m
unfolding bits_from weight
length-bits_from [] i = refl
length-bits_from (b ∷ bs) i = ground (arith, length-bits_from bs (i + 1))

pub length-addresses : (m : List Bool) → length (addresses m) ≡ weight m
unfolding addresses
length-addresses m = length-bits_from m 0
