-- ===== src/Ishtp/Dma/Slots.antt =====
-- Which slots of the DMA Tx buffer a message gets, src/intel-ish-hid-linux-6.5/ishtp/dma-if.c.
use ubuntu_elkhart_lake_pse.Prelude.{
  ℕ, zero, suc, ◌+◌, ◌*◌, ◌≤◌, ◌<◌, ◌≡◌, Bool, true, false, List, none, some, arith, get_or, leb,
  inl, inr, Option-cases, Bool-cases, leb→le, leb→gt, length, length-set, get_or-set,
  get_or-set_other, set, ltb, ◌==◌, ◌&&◌, ◌||◌,
}
use ubuntu_elkhart_lake_pse.Ishtp.Types.{Device}
use ubuntu_elkhart_lake_pse.Ishtp.Dma.{
  slots_for, first_used, find_slots, mark, get_from_map, ishtp_cl_get_dma_send_buf,
}

-- The `n` slots from slot `i` on are free.
abbrev pub AllUnused : List Bool → ℕ → ℕ → Type 0
AllUnused tx_map i zero = Unit
AllUnused tx_map i (suc n) = (get_or tx_map i false ≡ false) × AllUnused tx_map (i + 1) n

pub AllUnused-at :
    (tx_map : List Bool) (i n k : ℕ)
    → AllUnused tx_map i n
    → i ≤ k
    → k < i + n
    → get_or tx_map k false ≡ false
AllUnused-at tx_map i zero k u l m = absurd (omega arith)
AllUnused-at tx_map i (suc n) k u l m = elim (Bool-cases (leb k i)) [
  | inl e ↦ let same : i ≡ k = omega (arith, leb→le k i e) in rw (← same) u.0
  | inr e ↦ AllUnused-at tx_map (i + 1) n k u.1 (omega (arith, leb→gt k i e)) (omega arith)
]

first_used-none :
    (tx_map : List Bool) (i n : ℕ) → first_used tx_map i n ≡ none → AllUnused tx_map i n
unfolding first_used
first_used-none tx_map i zero h = tt
first_used-none tx_map i (suc n) h = ground (arith, first_used-none tx_map (i + 1) n)

first_used-some :
    (tx_map : List Bool) (i n k : ℕ)
    → first_used tx_map i n ≡ some k
    → (i ≤ k) × (k < i + n) × (get_or tx_map k false ≡ true)
unfolding first_used
first_used-some tx_map i zero k h = ground arith
first_used-some tx_map i (suc n) k h = ground (arith, first_used-some tx_map (i + 1) n k)

find_slots_sound :
    (fuel : ℕ) (tx_map : List Bool) (num_slots required i j : ℕ)
    → find_slots fuel tx_map num_slots required i ≡ some j
    → (j + required ≤ num_slots) × AllUnused tx_map j required
unfolding find_slots
find_slots_sound zero tx_map num_slots required i j h = ground arith
find_slots_sound (suc fuel) tx_map num_slots required i j h =
    elim (Option-cases (first_used tx_map i required)) [
      | inl e ↦ ground (arith, first_used-none tx_map i required e)
      | inr (k, e) ↦ ground (arith, find_slots_sound fuel tx_map num_slots required (k + 1) j)
    ]

find_slots_complete :
    (fuel : ℕ) (tx_map : List Bool) (num_slots required i j : ℕ)
    → num_slots < fuel + i
    → find_slots fuel tx_map num_slots required i ≡ none
    → i ≤ j
    → j + required ≤ num_slots
    → AllUnused tx_map j required
    → ⊥
unfolding find_slots
find_slots_complete zero tx_map num_slots required i j f h l m u = omega arith
find_slots_complete (suc fuel) tx_map num_slots required i j f h l m u =
    elim (Option-cases (first_used tx_map i required)) [
      | inl e ↦ ground arith
      | inr (k, e) ↦
          let (above, below, used) = first_used-some tx_map i required k e in
          elim (Bool-cases (leb (k + 1) j)) [
            | inl p ↦ ground (
              arith,
              find_slots_complete fuel tx_map num_slots required (k + 1) j (omega (arith, above)),
            )
            | inr p ↦ ground (arith, AllUnused-at tx_map j required k u)
          ]
    ]

slots_for_enough : (size : ℕ) → size ≤ slots_for size * 4096
unfolding slots_for
slots_for_enough size = ground arith

-- Slot `k` is marked if it is one of the `n` slots from `i` on, or was before.
get_or-mark :
    (tx_map : List Bool) (i n k : ℕ)
    → i + n ≤ length tx_map
    → get_or (mark tx_map i n) k false ≡ (leb i k && ltb k (i + n) || get_or tx_map k false)
unfolding mark
get_or-mark tx_map i zero k h = ground arith
get_or-mark tx_map i (suc n) k h =
    let rest =
      get_or-mark (set tx_map i true) (i + 1) n k (omega (arith, h, length-set tx_map i true)) in
    elim (Bool-cases (i == k)) [
      | inl e ↦
          let same : i ≡ k = ground (arith, e) in
          let here : get_or (set tx_map i true) k false ≡ true =
            rw (← same) (get_or-set tx_map i true false (omega (arith, h))) in
          ground (arith, rest, here, same)
      | inr d ↦
          ground
            (arith, rest, d, get_or-set_other tx_map i k true false (λ s. ground (arith, d, s)))
    ]

-- What is handed out, and the slots that are marked.
pub get_dma_send_buf-mark :
    (dev dev' : Device) (tx_map : List Bool) (size a : ℕ)
    → dev.dma_tx_map ≡ some tx_map
    → ishtp_cl_get_dma_send_buf dev size ≡ (some a, dev')
    → (i : ℕ) × (a ≡ i * 4096)
      × (i + slots_for size ≤ dev.dma_num_slots)
      × AllUnused tx_map i (slots_for size)
      × (dev' ≡ record dev { dma_tx_map = some (mark tx_map i (slots_for size)) })
unfolding ishtp_cl_get_dma_send_buf get_from_map
get_dma_send_buf-mark dev dev' tx_map size a e h =
    let req = slots_for size in
    elim (Option-cases (find_slots (suc dev.dma_num_slots) tx_map dev.dma_num_slots req 0)) [
      | inl f ↦ ground arith
      | inr (i, f) ↦
          let (fits, unused) =
            find_slots_sound (suc dev.dma_num_slots) tx_map dev.dma_num_slots req 0 i f in
          (i, ground arith, fits, unused, ground arith)
    ]

-- A DMA buffer that is handed out lies in the Tx buffer, with room for the whole message, and on
-- slots that were free; afterwards a slot is in use if it is one of these or was in use before, and is
-- free otherwise, and nothing else of the device changes. The map has an entry for each slot.
pub get_dma_send_buf_lem :
    (dev dev' : Device) (tx_map : List Bool) (size a k : ℕ)
    → dev.dma_tx_map ≡ some tx_map
    → dev.dma_num_slots ≤ length tx_map
    → ishtp_cl_get_dma_send_buf dev size ≡ (some a, dev')
    → (i : ℕ) × (tx_map' : List Bool) × (a ≡ i * 4096)
      × (a + size ≤ dev.dma_num_slots * 4096)
      × AllUnused tx_map i (slots_for size)
      × (dev' ≡ record dev { dma_tx_map = some tx_map' })
      × (get_or tx_map' k false ≡ (leb i k && ltb k (i + slots_for size) || get_or tx_map k false))
get_dma_send_buf_lem dev dev' tx_map size a k e l h =
    let (i, start, fits, unused, after) = get_dma_send_buf-mark dev dev' tx_map size a e h in
    (
      i,
      mark tx_map i (slots_for size),
      start,
      omega (arith, start, fits, slots_for_enough size),
      unused,
      after,
      get_or-mark tx_map i (slots_for size) k (omega (arith, fits, l)),
    )

-- If there is a run of free slots that is long enough, anywhere in the Tx buffer, then a DMA buffer is
-- handed out: the search does not miss it.
pub get_dma_send_buf_total :
    (dev : Device) (tx_map : List Bool) (size j : ℕ)
    → dev.dma_tx_map ≡ some tx_map
    → j + slots_for size ≤ dev.dma_num_slots
    → AllUnused tx_map j (slots_for size)
    → (a : ℕ) × ((ishtp_cl_get_dma_send_buf dev size).0 ≡ some a)
unfolding ishtp_cl_get_dma_send_buf get_from_map
get_dma_send_buf_total dev tx_map size j e l u =
    let req = slots_for size in
    elim (Option-cases (find_slots (suc dev.dma_num_slots) tx_map dev.dma_num_slots req 0)) [
      | inl f ↦ absurd (
          find_slots_complete (suc dev.dma_num_slots) tx_map dev.dma_num_slots req 0 j (omega arith)
            f (omega arith) l u)
      | inr (i, f) ↦ (i * 4096, ground arith)
    ]
