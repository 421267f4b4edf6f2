-- ===== src/Tests/Dma.antt =====
-- The DMA slots: a message of one slot among three, of which the first is in use.
use ubuntu_elkhart_lake_pse.Prelude.{
  ℕ, ◌+◌, ◌*◌, ◌≤◌, ◌≡◌, refl, Bool, true, false, List, [], ◌∷◌, some, arith, get_or, leb, ltb,
  ◌&&◌, ◌||◌,
}
use ubuntu_elkhart_lake_pse.Ishtp.Types.{Device}
use ubuntu_elkhart_lake_pse.Ishtp.Dma.{
  slots_for, first_used, ishtp_cl_get_dma_send_buf, ishtp_cl_release_dma_acked_mem,
}
use ubuntu_elkhart_lake_pse.Ishtp.Dma.Slots.{
  AllUnused, get_dma_send_buf_lem, get_dma_send_buf_total,
}
use ubuntu_elkhart_lake_pse.Ishtp.Dma.Release.{get-release}
use ubuntu_elkhart_lake_pse.Tests.Data.{test_device}

abbrev slots : List Bool
slots = true ∷ false ∷ false ∷ []

abbrev caught : Device
caught = record test_device { dma_tx_map = some (true ∷ true ∷ false ∷ []) }

second_slot : ishtp_cl_get_dma_send_buf test_device 10 ≡ (some 4096, caught)
unfolding ishtp_cl_get_dma_send_buf first_used
second_slot = refl

get_dma_send_buf_lem_example :
    (i : ℕ) × (tx_map' : List Bool) × (4096 ≡ i * 4096)
    × (4096 + 10 ≤ 3 * 4096)
    × AllUnused slots i (slots_for 10)
    × (caught ≡ record test_device { dma_tx_map = some tx_map' })
    × (get_or tx_map' 1 false ≡ (leb i 1 && ltb 1 (i + slots_for 10) || false))
get_dma_send_buf_lem_example =
    get_dma_send_buf_lem test_device caught slots 10 4096 1 refl (omega arith) second_slot

get_dma_send_buf_total_example : (a : ℕ) × ((ishtp_cl_get_dma_send_buf test_device 8000).0 ≡ some a)
unfolding slots_for
get_dma_send_buf_total_example =
    get_dma_send_buf_total test_device slots 8000 1 refl (omega arith) (refl, (refl, tt))

get-release_example : ishtp_cl_release_dma_acked_mem caught 4096 10 ≡ test_device
get-release_example =
    get-release test_device caught slots 10 4096 refl (omega arith) (omega arith) (omega arith)
      second_slot
