-- ===== src/Tests/Reset.antt =====
-- A reset of the firmware, and a wait of 20 slices.
use ubuntu_elkhart_lake_pse.Prelude.{◌≡◌, false, true, [], some, arith, ◌==◌}
use ubuntu_elkhart_lake_pse.Ishtp.Types.{Code}
use ubuntu_elkhart_lake_pse.Ishtp.Ipc.Queue.{entries}
use ubuntu_elkhart_lake_pse.Ishtp.Interrupt.Live.{IsLive}
use ubuntu_elkhart_lake_pse.Ishtp.Transfer.{world_of}
use ubuntu_elkhart_lake_pse.Ishtp.Reset.{
  Firmware, Host, dev_of, timed_wait_for_timeout, ish_fw_reset_handler,
}
use ubuntu_elkhart_lake_pse.Ishtp.Reset.Waits.{any_ready, verdict, timed_wait_polls}
use ubuntu_elkhart_lake_pse.Ishtp.Reset.Clean.{Recovers, fw_reset-Recovers}
use ubuntu_elkhart_lake_pse.Tests.Interrupt.{test_hw, test_hw-IsLive}

timed_wait_polls_example :
    (timed_wait_for_timeout 20 1 (λ i. i == 7) (λ i. false) (λ j. 0) 100 2000
      ≡ some (verdict (any_ready 20 (λ i. i == 7) 0)))
    × (timed_wait_for_timeout 20 2 (λ i. i == 7) (λ i. false) (λ j. 0) 100 2000
        ≡ some (verdict (any_ready 20 (λ i. false) 0)))
timed_wait_polls_example =
    timed_wait_polls 19 100 (λ i. i == 7) (λ i. false) (omega arith) (omega arith)

abbrev firmware : Firmware
firmware = record {
  reset_id = 9;
  drbl_after = 0;
  fw_ready = true;
  hw_ready = true;
  dma_busy = λ i. false;
}

abbrev host : Host
host = record {
  hw = test_hw;
  regs = record { host_comm = 0; pimr = 0; rmp2 = 0; device = 0x4BB3; revision = 0 };
}

fw_reset-Recovers_example :
    (rv : Code) × (t : Host) × (ish_fw_reset_handler firmware host ≡ some (rv, t))
    × IsLive (world_of t.hw.machine.bus)
    × (entries (dev_of t).ipc ≡ 4)
    × ((dev_of t).ipc.wr_processing_list ≡ [])
    × Recovers firmware (dev_of host).ipc rv t
fw_reset-Recovers_example = fw_reset-Recovers firmware host test_hw-IsLive (omega arith)
