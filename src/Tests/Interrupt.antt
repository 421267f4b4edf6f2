-- ===== src/Tests/Interrupt.antt =====
-- Interrupts on a device with one client: a fragment for it, a DMA transfer that is announced, and a reset of the
-- firmware.
use ubuntu_elkhart_lake_pse.Prelude.{
  ℕ, ◌+◌, ◌*◌, ◌≤◌, refl, true, false, List, [], ◌∷◌, some, arith, inr, length,
}
use ubuntu_elkhart_lake_pse.Ishtp.Inbox.{Inbox}
use ubuntu_elkhart_lake_pse.Ishtp.Startup.{hbm_working, Platform, Startup}
use ubuntu_elkhart_lake_pse.Ishtp.Startup.Exchange.{replicate}
use ubuntu_elkhart_lake_pse.Ishtp.Dispatch.{msg_hdr}
use ubuntu_elkhart_lake_pse.Ishtp.Transfer.{world_of}
use ubuntu_elkhart_lake_pse.Ishtp.Interrupt.{Irq, Hw, interrupts}
use ubuntu_elkhart_lake_pse.Ishtp.Interrupt.Live.{IsLive}
use ubuntu_elkhart_lake_pse.Ishtp.Interrupt.Sequence.{Fits, IrqSafe, interrupts-IrqSafe}
use ubuntu_elkhart_lake_pse.Tests.Data.{test_client, test_device, test_world}

abbrev platform : Platform
platform = record {
  pdev = true;
  reset_done = true;
  pm_cap = true;
  dma_inactive = true;
  registers = λ name. true;
  dma_tx_buf = some 65536;
  dma_tx_map = true;
  dma_rx_buf = some 131072;
  use_dma = true;
}

abbrev inbox : Inbox
inbox = record {
  rd_msg_fifo = λ a. 0;
  rd_msg_fifo_head = 0;
  rd_msg_fifo_tail = 0;
  bh_hbm_work = false;
}

abbrev running : Startup
running = record {
  dev = test_device;
  heap = test_world.heap;
  hbm_state = hbm_working;
  major_version = 1;
  minor_version = 0;
  fw_clients_map = [];
  fw_clients_num = 1;
  fw_client_presentation_num = 1;
  fw_client_index = 8;
  host_dma_enabled = true;
  dma_tx_buf = some 65536;
  dma_rx_buf = some 131072;
  dma_rx_buf_phys = 131072;
  dma_rx_buf_size = 1048576;
  device_ready = true;
}

abbrev pub test_hw : Hw
test_hw = record {
  machine = record {
    bus = running;
    inbox = inbox;
    ishtp_msg_hdr = record {
      fw_addr = 0;
      host_addr = 0;
      length = 0;
      reserved = 0;
      msg_complete = false;
    };
    current_state = 0;
    prev_sync = 0;
  };
  recvd_hw_ready = true;
  suspend_flag = false;
  resume_flag = false;
  fw_reset_work = false;
  served = false;
  ipc_rx_cnt = 0;
  ipc_rx_bytes_cnt = 0;
}

abbrev irq : ℕ → ℕ → List ℕ → Irq
irq drbl hdr_word regs = record {
  interrupt_generated = true;
  drbl = drbl;
  hdr_word = hdr_word;
  regs = regs;
  rx_mem = λ a. 0;
  stack = replicate 128 0;
  jiffies = 1000;
  hz = 250;
  usec = 4000000;
}

-- Two bytes from the client 7 of the firmware to the client 3.
abbrev a_fragment : Irq
a_fragment = irq (2147483648 + 1024 + 8) (7 + 3 * 256 + 2 * 65536) (11 ∷ 12 ∷ 99 ∷ 99 ∷ [])

-- DMA_XFER, and the firmware's MNG_RESET_NOTIFY.
abbrev a_transfer : Irq
a_transfer = irq (2147483648 + 1024 + 36) (32 * 65536 + 2147483648) (0x12 ∷ 7 ∷ 3 ∷ replicate 29 0)

abbrev a_reset : Irq
a_reset = irq (2147483648 + 3 * 65536 + 3072 + 4) 5 []

stack_long : 128 ≤ length {A = ℕ} (replicate 128 0)
stack_long = omega arith

a_fragment-Fits : Fits a_fragment
unfolding msg_hdr
a_fragment-Fits = (omega arith, stack_long)

a_transfer-Fits : Fits a_transfer
unfolding msg_hdr
a_transfer-Fits = (omega arith, stack_long)

a_reset-Fits : Fits a_reset
unfolding msg_hdr
a_reset-Fits = (omega arith, stack_long)

pub test_hw-IsLive : IsLive (world_of test_hw.machine.bus)
test_hw-IsLive = record {
  posted = (inr (1, test_client, refl, refl), tt);
  listed = ((test_client, refl), tt);
}

interrupts-IrqSafe_example :
    IrqSafe (interrupts platform (a_fragment ∷ a_transfer ∷ a_reset ∷ []) test_hw)
interrupts-IrqSafe_example =
    interrupts-IrqSafe platform (a_fragment ∷ a_transfer ∷ a_reset ∷ []) test_hw
      (a_fragment-Fits, (a_transfer-Fits, (a_reset-Fits, tt)))
      (record { live = test_hw-IsLive; buffered = λ e. (131072, refl) })
