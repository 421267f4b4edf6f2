-- ===== src/Tests/Rings.antt =====
-- The ring buffers.
use ubuntu_elkhart_lake_pse.Prelude.{Bool, ◌==◌, refl, [], arith}
use ubuntu_elkhart_lake_pse.Ishtp.Types.{Rb, Sys}
use ubuntu_elkhart_lake_pse.Ishtp.Rings.{ishtp_cl_io_rb_recycle, ishtp_cl_alloc_rx_ring}
use ubuntu_elkhart_lake_pse.Ishtp.Rings.Credits.{IsServed, ishtp_cl_io_rb_recycle-IsServed}
use ubuntu_elkhart_lake_pse.Ishtp.Rings.Alloc.{RxRing, alloc_rx_ring_lem}
use ubuntu_elkhart_lake_pse.Tests.Data.{test_rb, test_client, test_sys}

-- The buffers of six bytes.
abbrev is_six : Rb → Bool
is_six rb = rb.size == 6

served : IsServed is_six 2 test_sys
served = record { kept = refl; credit = omega arith }

ishtp_cl_io_rb_recycle-IsServed_example :
    IsServed is_six 3 (ishtp_cl_io_rb_recycle test_sys (test_rb 22)).1
ishtp_cl_io_rb_recycle-IsServed_example =
    ishtp_cl_io_rb_recycle-IsServed is_six 2 1 test_sys (test_rb 22) refl served

abbrev bare : Sys
bare = record test_sys { cl = record test_client { free_rb_list = []; tx_free_list = [] } }

alloc_rx_ring_lem_example : RxRing 1 6 2 (ishtp_cl_alloc_rx_ring bare 6)
alloc_rx_ring_lem_example = alloc_rx_ring_lem bare 6 (omega arith) refl
