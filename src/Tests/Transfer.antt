-- ===== src/Tests/Transfer.antt =====
-- A message of four bytes that comes by DMA or over IPC.
use ubuntu_elkhart_lake_pse.Prelude.{refl, true, List, [], ◌∷◌, some, arith, ℕ}
use ubuntu_elkhart_lake_pse.Ishtp.Recv.{recv_ishtp_cl_msg}
use ubuntu_elkhart_lake_pse.Ishtp.Recv.Search.{fragment}
use ubuntu_elkhart_lake_pse.Ishtp.Transfer.{DmaXfer, recv_ishtp_cl_msg_dma}
use ubuntu_elkhart_lake_pse.Ishtp.Transfer.Messages.{Agree, recv_dma-Agree}
use ubuntu_elkhart_lake_pse.Tests.Data.{test_world}

abbrev xfer : DmaXfer
xfer = record { fw_client_id = 7; host_client_id = 3; msg_addr = 131072; msg_length = 4 }

abbrev bytes : List ℕ
bytes = 1 ∷ 2 ∷ 3 ∷ 4 ∷ []

recv_dma-Agree_example :
    Agree 1
      (recv_ishtp_cl_msg_dma test_world (some bytes) xfer)
      (recv_ishtp_cl_msg test_world (fragment 3 7 4 true) bytes)
recv_dma-Agree_example =
    recv_dma-Agree test_world xfer bytes 1 (refl, tt) refl (omega arith) (omega arith)
