-- ===== src/Ishtp/Dma.antt =====
-- The slots of the DMA Tx buffer, src/intel-ish-hid-linux-6.5/ishtp/dma-if.c. An address in the
-- buffer is its offset from the buffer's start. Allocation and release of the buffers themselves
-- (ishtp_cl_alloc_dma_buf, ishtp_cl_free_dma_buf) are calls of the kernel's DMA allocator.
pub mod Slots
pub mod Release
use ubuntu_elkhart_lake_pse.Prelude.{
  ℕ, zero, suc, ◌+◌, ◌*◌, ◌/◌, ◌%◌, Bool, true, false, not, ◌||◌, List, Option, none, some, ltb,
  leb, ◌==◌, if◌then◌else◌, get_or, set,
}
use ubuntu_elkhart_lake_pse.Ishtp.Types.{Device}

abbrev pub dma_slot_size : ℕ
dma_slot_size = 4096

-- Slots for `size` bytes: one more if there is a remainder.
unfoldable pub slots_for : ℕ → ℕ
slots_for size = size / dma_slot_size + (if size % dma_slot_size == 0 then 0 else 1)

-- The inner loop: the first used slot among the `n` from slot `i` on.
unfoldable pub first_used : List Bool → ℕ → ℕ → Option ℕ
first_used tx_map i zero = none
first_used tx_map i (suc n) =
    let rest = first_used tx_map (i + 1) n in if get_or tx_map i false then some i else rest

-- The outer loop goes on behind the used slot that the inner loop met. The fuel bounds the rounds.
unfoldable pub find_slots : ℕ → List Bool → ℕ → ℕ → ℕ → Option ℕ
find_slots zero tx_map num_slots required i = none
find_slots (suc fuel) tx_map num_slots required i = elim (leb (i + required) num_slots) [
  | false ↦ none
  | true ↦ elim (first_used tx_map i required) [
    | none ↦ some i
    | some k ↦ find_slots fuel tx_map num_slots required (k + 1)
  ]
]

-- Slots `i` to `i + n` are marked as caught.
unfoldable pub mark : List Bool → ℕ → ℕ → List Bool
mark tx_map i zero = tx_map
mark tx_map i (suc n) = mark (set tx_map i true) (i + 1) n

unfoldable pub get_from_map : Option (List Bool) → Device → ℕ → Option ℕ × Device
unfolding find_slots mark
get_from_map none dev required = (none, dev)
get_from_map (some tx_map) dev required =
    elim (find_slots (suc dev.dma_num_slots) tx_map dev.dma_num_slots required 0) [
      | none ↦ (none, dev)
      | some i ↦
          (some (i * dma_slot_size), record dev { dma_tx_map = some (mark tx_map i required) })
    ]

unfoldable pub ishtp_cl_get_dma_send_buf : Device → ℕ → Option ℕ × Device
unfolding get_from_map slots_for
ishtp_cl_get_dma_send_buf dev size = get_from_map dev.dma_tx_map dev (slots_for size)

-- The loop of the release stops at a slot that does not exist or is free.
unfoldable pub release_slots : ℕ → List Bool → ℕ → ℕ → List Bool
release_slots zero tx_map num_slots i = tx_map
release_slots (suc n) tx_map num_slots i =
    let rest = release_slots n (set tx_map i false) num_slots (i + 1) in
    if leb num_slots i || not (get_or tx_map i false) then tx_map else rest

unfoldable pub release_in_map : Option (List Bool) → Device → ℕ → ℕ → Device
unfolding release_slots
release_in_map none dev i acked_slots = dev
release_in_map (some tx_map) dev i acked_slots = record dev {
  dma_tx_map = some (release_slots acked_slots tx_map dev.dma_num_slots i);
}

-- The size is a `uint8_t` parameter, so a caller's length is cut to eight bits.
unfoldable pub ishtp_cl_release_dma_acked_mem : Device → ℕ → ℕ → Device
unfolding release_in_map slots_for
ishtp_cl_release_dma_acked_mem dev msg_addr size =
    let acked_slots = slots_for (size % 256) in
    if msg_addr % dma_slot_size == 0
    then release_in_map dev.dma_tx_map dev (msg_addr / dma_slot_size) acked_slots
    else dev
