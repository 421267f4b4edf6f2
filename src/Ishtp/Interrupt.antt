-- ===== src/Ishtp/Interrupt.antt =====
-- Interrupts, src/intel-ish-hid-linux-6.5/ipc/ipc.c: `ish_irq_handler`, the management messages of the firmware
-- and those that the driver sends. That the time in a clock message is taken once more when it is written
-- is left out: the bytes of such a frame stand for any time.
pub mod Alive
pub mod Delivery
pub mod Flow
pub mod Live
pub mod Safe
pub mod Sequence
use ubuntu_elkhart_lake_pse.Prelude.{
  ℕ, zero, suc, ◌+◌, ◌-◌, ◌*◌, ◌/◌, ◌%◌, Bool, true, false, not, ◌&&◌, ◌||◌, List, [], ◌∷◌, ◌++◌,
  Option, none, some, ltb, ◌==◌, if◌then◌else◌, take, drop, length, incr32,
}
use ubuntu_elkhart_lake_pse.Prelude.Bytes.{le_bytes, from_le}
use ubuntu_elkhart_lake_pse.Ishtp.Types.{Code, DevState, is_disabled, Frame, Ipc, Device}
use ubuntu_elkhart_lake_pse.Ishtp.Ipc.{is_busy, write_ipc_from_queue, write_ipc_to_queue}
use ubuntu_elkhart_lake_pse.Ishtp.Startup.{Platform, Startup}
use ubuntu_elkhart_lake_pse.Ishtp.Dispatch.{Machine, msg_hdr, ishtp_recv}

-- IPC_HEADER_GET_LENGTH, IPC_HEADER_GET_PROTOCOL and IPC_HEADER_GET_MNG_CMD of a doorbell word.
abbrev pub header_length : ℕ → ℕ
header_length drbl = drbl % 1024

abbrev pub header_protocol : ℕ → ℕ
header_protocol drbl = drbl / 1024 % 16

abbrev pub header_mng_cmd : ℕ → ℕ
header_mng_cmd drbl = drbl / 65536 % 16

-- IPC_BUILD_MNG_MSG
abbrev pub mng_msg : ℕ → ℕ → ℕ
mng_msg cmd length = 2147483648 + cmd * 65536 + 3072 + length

-- A management message in the message registers, whose first word is in the place of an ISHTP header.
unfoldable pub mng_frame : ℕ → List ℕ → Frame
unfolding msg_hdr from_le
mng_frame cmd msg = record {
  doorbell = mng_msg cmd (length msg);
  hdr = msg_hdr (from_le (take 4 msg));
  payload = drop 4 msg;
}

unfoldable pub ipc_send_mng_msg : Device → ℕ → List ℕ → Code × Device
unfolding mng_frame write_ipc_to_queue
ipc_send_mng_msg dev cmd msg =
    let (rv, q) = write_ipc_to_queue dev.dev_state dev.ipc (mng_frame cmd msg) (4 + length msg) in
    (rv, record dev { ipc = q })

-- What an interrupt finds: whether it is from the device, the doorbell, the header word and the payload in
-- the message registers, the memory of the DMA Rx buffer, what the stack holds where the message
-- buffer will be, the time in jiffies with their number in a second, and in microseconds.
pub record Irq : Type 0 where
  pub interrupt_generated : Bool
  pub drbl : ℕ
  pub hdr_word : ℕ
  pub regs : List ℕ
  pub rx_mem : ℕ → ℕ
  pub stack : List ℕ
  pub jiffies : ℕ
  pub hz : ℕ
  pub usec : ℕ

-- The state that interrupts change: `machine` with the counters and flags of `struct ishtp_device`; `served`
-- tells that the doorbell of the firmware was cleared, `fw_reset_work` that this work is scheduled.
pub record Hw : Type 0 where
  pub machine : Machine
  pub recvd_hw_ready : Bool
  pub suspend_flag : Bool
  pub resume_flag : Bool
  pub fw_reset_work : Bool
  pub served : Bool
  pub ipc_rx_cnt : ℕ
  pub ipc_rx_bytes_cnt : ℕ

abbrev pub with_dev : Device → Machine → Machine
with_dev dev m = record m { bus = record (m.bus) { dev = dev } }

-- MNG_SYNC_FW_CLOCK, at most every 20 seconds; whether it could be queued is ignored.
unfoldable pub ish_sync_fw_clock : Irq → Machine → Machine
unfolding ipc_send_mng_msg le_bytes
ish_sync_fw_clock irq m =
    if not (m.prev_sync == 0) && ltb irq.jiffies (m.prev_sync + 20 * irq.hz)
    then m
    else with_dev (ipc_send_mng_msg m.bus.dev 5 (le_bytes 8 irq.usec)).1
        (record m { prev_sync = irq.jiffies })

-- MNG_RX_CMPL_INDICATION, MNG_RESET_NOTIFY and MNG_RESET_NOTIFY_ACK; the wake-ups are left out.
unfoldable pub recv_ipc : ℕ → Hw → Hw
unfolding write_ipc_from_queue
recv_ipc drbl s =
    if header_mng_cmd drbl == 2
    then record s {
      suspend_flag = false;
      resume_flag = false;
      machine =
          with_dev
            (record (s.machine.bus.dev) {
              ipc = (write_ipc_from_queue s.machine.bus.dev.dev_state s.machine.bus.dev.ipc).1;
            })
            s.machine;
    }
    else if header_mng_cmd drbl == 3
    then record s { fw_reset_work = true }
    else if header_mng_cmd drbl == 4
    then record s { recvd_hw_ready = true }
    else s

abbrev pub with_machine : Hw → Option Machine → Option Hw
with_machine s none = none
with_machine s (some m) = some (record s { machine = m })

unfoldable pub by_protocol : Platform → Irq → Hw → Option Hw
unfolding recv_ipc ishtp_recv ish_sync_fw_clock
by_protocol h irq s =
    if header_protocol irq.drbl == 3
    then some (recv_ipc irq.drbl s)
    else if header_protocol irq.drbl == 1
    then with_machine s
        (ishtp_recv h (ish_sync_fw_clock irq) irq.rx_mem irq.stack irq.hdr_word irq.regs s.machine)
    else some s

-- The end of the interrupt.
abbrev pub eoi : ℕ → Option Hw → Option Hw
eoi drbl none = none
eoi drbl (some s) = some (record s {
  served = true;
  ipc_rx_cnt = incr32 s.ipc_rx_cnt;
  ipc_rx_bytes_cnt = (s.ipc_rx_bytes_cnt + header_length drbl) % 18446744073709551616;
})

unfoldable pub ish_irq_handler : Platform → Irq → Hw → Option Hw
unfolding by_protocol
ish_irq_handler h irq s =
    if not irq.interrupt_generated
    then some s
    else if not (is_busy irq.drbl)
    then some s
    else if is_disabled s.machine.bus.dev.dev_state
    then some s
    else if ltb 128 (header_length irq.drbl)
    then eoi irq.drbl (some s)
    else eoi irq.drbl (by_protocol h irq s)

-- Interrupts one after the other.
unfoldable pub interrupts : Platform → List Irq → Hw → Option Hw
unfolding ish_irq_handler
interrupts h [] s = some s
interrupts h (irq ∷ irqs) s = elim (ish_irq_handler h irq s) [
  | none ↦ none
  | some t ↦ interrupts h irqs t
]
