-- ===== src/Ishtp/Dma/Release.antt =====
-- What the release of a DMA buffer gives back, src/intel-ish-hid-linux-6.5/ishtp/dma-if.c.
use ubuntu_elkhart_lake_pse.Prelude.{
  ℕ, zero, suc, ◌+◌, ◌*◌, ◌/◌, ◌%◌, ◌≤◌, ◌<◌, ◌≡◌, refl, sym, ap, ◌∙◌, Bool, true, false, List,
  some, arith, length, length-set, get_or, set, ◌⊎◌, get_or-set, get_or-set_other, set-set,
  set_comm, set-get_or,
}
use ubuntu_elkhart_lake_pse.Ishtp.Types.{Device}
use ubuntu_elkhart_lake_pse.Ishtp.Dma.{
  slots_for, mark, ishtp_cl_get_dma_send_buf, release_slots, release_in_map,
  ishtp_cl_release_dma_acked_mem,
}
use ubuntu_elkhart_lake_pse.Ishtp.Dma.Slots.{AllUnused, get_dma_send_buf-mark}

length-mark : (tx_map : List Bool) (i n : ℕ) → length (mark tx_map i n) ≡ length tx_map
unfolding mark
length-mark tx_map i zero = refl
length-mark tx_map i (suc n) = length-mark (set tx_map i true) (i + 1) n ∙ length-set tx_map i true

set-mark :
    (tx_map : List Bool) (i n k : ℕ) (v : Bool)
    → k < i
    → set (mark tx_map i n) k v ≡ mark (set tx_map k v) i n
unfolding mark
set-mark tx_map i zero k v l = refl
set-mark tx_map i (suc n) k v l =
    set-mark (set tx_map i true) (i + 1) n k v (omega arith)
    ∙ ap (λ m. mark m (i + 1) n) (set_comm tx_map i k true v (omega arith))

get_or-mark :
    (tx_map : List Bool) (i n k : ℕ)
    → k < i
    → get_or (mark tx_map i n) k false ≡ get_or tx_map k false
unfolding mark
get_or-mark tx_map i zero k l = refl
get_or-mark tx_map i (suc n) k l =
    get_or-mark (set tx_map i true) (i + 1) n k (omega arith)
    ∙ get_or-set_other tx_map i k true false (omega arith)

-- Slot `i` is given back first.
release_first :
    (tx_map : List Bool) (i n : ℕ)
    → get_or tx_map i false ≡ false
    → set (mark tx_map i (suc n)) i false ≡ mark tx_map (i + 1) n
unfolding mark
release_first tx_map i n u =
    set-mark (set tx_map i true) (i + 1) n i false (omega arith)
    ∙ ap (λ m. mark m (i + 1) n)
        (set-set tx_map i true false ∙ ap (set tx_map i) (sym u) ∙ set-get_or tx_map i false)

first_used_slot :
    (tx_map : List Bool) (i n : ℕ)
    → i < length tx_map
    → get_or (mark tx_map i (suc n)) i false ≡ true
unfolding mark
first_used_slot tx_map i n l =
    get_or-mark (set tx_map i true) (i + 1) n i (omega arith) ∙ get_or-set tx_map i true false l

release_slots-mark :
    (n : ℕ) (tx_map : List Bool) (num_slots i : ℕ)
    → i + n ≤ num_slots
    → num_slots ≤ length tx_map
    → AllUnused tx_map i n
    → release_slots n (mark tx_map i n) num_slots i ≡ tx_map
unfolding release_slots mark
release_slots-mark zero tx_map num_slots i l m u = refl
release_slots-mark (suc n) tx_map num_slots i l m u = ground (
  arith,
  first_used_slot tx_map i n (omega arith),
  release_first tx_map i n u.0,
  release_slots-mark n tx_map num_slots (i + 1) (omega arith) m u.1,
)

same_slots : (size : ℕ) → size ≤ 4096 → 0 < size % 256 → slots_for (size % 256) ≡ slots_for size
unfolding slots_for
same_slots size l p = ground arith

one_slot : (size : ℕ) → size ≤ 4096 → 0 < size % 256 → (slots_for size ≡ 1) × (0 < size)
unfolding slots_for
one_slot size l p = ground arith

release_in_use :
    (dev : Device) (tx_map : List Bool) (size a i : ℕ)
    → a ≡ i * 4096
    → ishtp_cl_release_dma_acked_mem (record dev { dma_tx_map = some tx_map }) a size ≡ record dev {
      dma_tx_map = some (release_slots (slots_for (size % 256)) tx_map dev.dma_num_slots i);
    }
unfolding ishtp_cl_release_dma_acked_mem release_in_map
release_in_use dev tx_map size a i e =
    let aligned : a % 4096 ≡ 0 = omega arith in
    let slot : a / 4096 ≡ i = omega arith in ground arith

-- A message of one slot whose length, cut to eight bits, is not 0: after its slots were handed out and
-- its acknowledgement released them, the device is as it was before.
pub get-release :
    (dev dev' : Device) (tx_map : List Bool) (size a : ℕ)
    → dev.dma_tx_map ≡ some tx_map
    → dev.dma_num_slots ≤ length tx_map
    → size ≤ 4096
    → 0 < size % 256
    → ishtp_cl_get_dma_send_buf dev size ≡ (some a, dev')
    → ishtp_cl_release_dma_acked_mem dev' a size ≡ dev
unfolding ishtp_cl_release_dma_acked_mem release_in_map slots_for
get-release dev dev' tx_map size a e m l p h =
    let (i, start, fits, unused, after) = get_dma_send_buf-mark dev dev' tx_map size a e h in
    let one : slots_for (size % 256) ≡ slots_for size = same_slots size l p in
    let n = slots_for size in
    ap (λ d. ishtp_cl_release_dma_acked_mem d a size) after
    ∙ release_in_use dev (mark tx_map i n) size a i start
    ∙ ap
        (λ k. record dev {
          dma_tx_map = some (release_slots k (mark tx_map i n) dev.dma_num_slots i);
        })
        one
    ∙ ap (λ t. record dev { dma_tx_map = some t })
        (release_slots-mark n tx_map dev.dma_num_slots i fits m unused)
    ∙ ground (arith, e)

-- A message whose length is a multiple of 256 is never released: its slots stay in use for good.
pub release_nothing :
    (dev : Device) (size a : ℕ) → size % 256 ≡ 0 → ishtp_cl_release_dma_acked_mem dev a size ≡ dev
unfolding ishtp_cl_release_dma_acked_mem release_in_map slots_for release_slots
release_nothing dev size a h = ground arith

-- However long a message was, its acknowledgement releases one slot at most.
pub release_at_most_one :
    (dev : Device) (tx_map : List Bool) (size a : ℕ)
    → dev.dma_tx_map ≡ some tx_map
    → ((ishtp_cl_release_dma_acked_mem dev a size).dma_tx_map ≡ some tx_map)
      ⊎ ((ishtp_cl_release_dma_acked_mem dev a size).dma_tx_map
          ≡ some (set tx_map (a / 4096) false))
unfolding ishtp_cl_release_dma_acked_mem release_in_map slots_for release_slots
release_at_most_one dev tx_map size a e = ground arith
