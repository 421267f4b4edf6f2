-- ===== src/Ishtp/Reset.antt =====
-- Resets and the start of the hardware, src/intel-ish-hid-linux-6.5/ipc/ipc.c, and what ishtp/init.c and
-- ishtp/hbm.c do about them. The registers that the firmware writes, and what comes while the driver waits, are
-- outcomes.
pub mod Waits
pub mod Clean
use ubuntu_elkhart_lake_pse.Prelude.{
  ℕ, zero, suc, ◌+◌, ◌-◌, ◌*◌, ◌/◌, ◌%◌, Bool, true, false, not, ◌&&◌, ◌||◌, List, [], ◌∷◌, ◌++◌,
  Option, none, some, ltb, ◌==◌, if◌then◌else◌, length,
}
use ubuntu_elkhart_lake_pse.Prelude.Bytes.{le_bytes}
use ubuntu_elkhart_lake_pse.Ishtp.Types.{
  Code, ok, err, einval, ebusy, epipe, enodev, etimedout, disabled, Frame, Ipc, Device,
}
use ubuntu_elkhart_lake_pse.Ishtp.Ipc.{is_busy}
use ubuntu_elkhart_lake_pse.Ishtp.Inbox.{clear_inbox}
use ubuntu_elkhart_lake_pse.Ishtp.Startup.{
  HbmState, hbm_idle, hbm_start, Platform, Startup, ish_wakeup,
}
use ubuntu_elkhart_lake_pse.Ishtp.Startup.Responses.{ishtp_reset_handler, ishtp_reset_compl_handler}
use ubuntu_elkhart_lake_pse.Ishtp.Dispatch.{Machine, ishtp_query_subscribers}
use ubuntu_elkhart_lake_pse.Ishtp.Interrupt.{Hw, with_dev, ipc_send_mng_msg}

-- `|=` and `&= ~` of one bit, given as its power of two, and `^=`.
unfoldable pub set_bit : ℕ → ℕ → ℕ
set_bit p v = if v / p % 2 == 1 then v else v + p

unfoldable pub clear_bit : ℕ → ℕ → ℕ
clear_bit p v = if v / p % 2 == 1 then v - p else v

unfoldable pub toggle_bit : ℕ → ℕ → ℕ
toggle_bit p v = if v / p % 2 == 1 then v - p else v + p

-- The registers that the driver writes and reads back, and the hardware's identity.
pub record Regs : Type 0 where
  pub host_comm : ℕ
  pub pimr : ℕ
  pub rmp2 : ℕ
  pub device : ℕ
  pub revision : ℕ

-- CHV_DEVICE_ID
abbrev pub chv_device_id : ℕ
chv_device_id = 0x22D8

-- The steppings of Cherry Trail, by the bits of REVISION_ID_SI_MASK (0x70).
abbrev pub is_cht_a : ℕ → Bool
is_cht_a revision = revision == 0x06 || revision / 16 % 8 == 0

abbrev pub is_cht_b : ℕ → Bool
is_cht_b revision =
    revision == 0xB0
    || (revision / 16 % 8 == 1 || (revision / 16 % 8 == 2 || revision / 16 % 8 == 3))

-- Interrupts are enabled; on Cherry Trail the host is set ready as well (0x81 and bit 31).
unfoldable pub set_host_ready : Regs → Regs
unfolding set_bit clear_bit
set_host_ready r =
    if not (r.device == chv_device_id)
    then record r { pimr = clear_bit 256 (set_bit 1 r.pimr) }
    else if is_cht_a r.revision
    then record r { host_comm = 0x81 }
    else if is_cht_b r.revision
    then record r { host_comm = set_bit 2147483648 (set_bit 128 (set_bit 1 r.host_comm)) }
    else r

-- IPC_HOSTCOMM_READY_BIT; it is cleared by exclusive or.
unfoldable pub ish_set_host_rdy : Regs → Regs
unfolding set_bit
ish_set_host_rdy r = record r { host_comm = set_bit 128 r.host_comm }

unfoldable pub ish_clr_host_rdy : Regs → Regs
unfolding toggle_bit
ish_clr_host_rdy r = record r { host_comm = toggle_bit 128 r.host_comm }

abbrev pub ish_chk_host_rdy : Regs → Bool
ish_chk_host_rdy r = r.host_comm / 128 % 2 == 1

unfoldable pub ish_set_host_ready : Regs → Regs
unfolding ish_set_host_rdy set_host_ready
ish_set_host_ready r = if ish_chk_host_rdy r then r else set_host_ready (ish_set_host_rdy r)

-- `do { … } while (!complete && timeout > 0)` with fuel: `ready i` and `left i` are what poll `i` reads and how
-- much of the sleep after it was left when it ended. `none`: the fuel has run out.
unfoldable pub wait_loop : ℕ → (ℕ → Bool) → (ℕ → ℕ) → ℕ → ℕ → ℕ → Option Code
wait_loop zero ready left timeinc i timeout = none
wait_loop (suc fuel) ready left timeinc i timeout = elim (ready i) [
  | true ↦ some (ok 0)
  | false ↦
      let timeout' = (timeout + 4294967296 + left i - timeinc) % 4294967296 in
      elim (timeout' == 0) [
        | true ↦ some (err ebusy)
        | false ↦ wait_loop fuel ready left timeinc (i + 1) timeout'
      ]
]

-- WAIT_FOR_FW_RDY and WAIT_FOR_INPUT_RDY; any other condition is refused.
unfoldable pub timed_wait_for_timeout :
    ℕ → ℕ → (ℕ → Bool) → (ℕ → Bool) → (ℕ → ℕ) → ℕ → ℕ → Option Code
unfolding wait_loop
timed_wait_for_timeout fuel condition fw_ready input_ready left timeinc timeout =
    if condition == 1
    then wait_loop fuel fw_ready left timeinc 0 timeout
    else if condition == 2
    then wait_loop fuel input_ready left timeinc 0 timeout
    else some (err einval)

-- The hardware during a reset: the reset id in the message registers, the doorbell of the driver after the
-- wait for it, and whether the firmware is up after the wait for that; whether the firmware's
-- acknowledgement, or its own reset, came in time; and whether DMA comes to rest at a poll.
pub record Firmware : Type 0 where
  pub reset_id : ℕ
  pub drbl_after : ℕ
  pub fw_ready : Bool
  pub hw_ready : Bool
  pub dma_busy : ℕ → Bool

pub record Host : Type 0 where
  pub hw : Hw
  pub regs : Regs

abbrev pub dev_of : Host → Device
dev_of s = s.hw.machine.bus.dev

abbrev pub put_dev : Device → Host → Host
put_dev dev s = record s { hw = record (s.hw) { machine = with_dev dev s.hw.machine } }

-- `list_splice_init` of the processing list to the free list: what waits is forgotten.
unfoldable pub splice : Ipc → Ipc
splice q = record q {
  wr_processing_list = [];
  wr_free_list = q.wr_free_list + length q.wr_processing_list;
}

-- The queue of bus messages is emptied too.
abbrev pub with_bus_reset : Host → Option Startup → Option Host
with_bus_reset s none = none
with_bus_reset s (some b) = some (record s {
  hw = record (s.hw) {
    machine = record (s.hw.machine) { bus = b; inbox = clear_inbox s.hw.machine.inbox };
  };
})

unfoldable pub notify_reset : Host → Option Host
unfolding splice ishtp_reset_handler clear_inbox
notify_reset s =
    let dev = dev_of s in
    let cleared = put_dev (record dev { ipc = splice dev.ipc }) s in
    with_bus_reset cleared (ishtp_reset_handler cleared.hw.machine.bus)

-- The wait for the input, if it is not ready.
abbrev pub after_wait : Firmware → Ipc → Ipc
after_wait fw q = if is_busy q.host2ish_drbl then record q { host2ish_drbl = fw.drbl_after } else q

-- MNG_RESET_NOTIFY_ACK with the reset id, whose result is ignored, and the wait for the firmware.
unfoldable pub acknowledge : Firmware → Host → Code × Host
unfolding ish_set_host_rdy ipc_send_mng_msg le_bytes
acknowledge fw s =
    let t = record s { regs = ish_set_host_rdy s.regs } in
    let sent = put_dev (ipc_send_mng_msg (dev_of t) 4 (le_bytes 4 (fw.reset_id % 65536))).1 t in
    if fw.fw_ready then (ok 0, sent) else (err enodev, sent)

unfoldable pub answer_reset : Firmware → Host → Code × Host
unfolding acknowledge
answer_reset fw s =
    let dev = dev_of s in
    let t = put_dev (record dev { ipc = after_wait fw dev.ipc }) s in
    if is_busy (dev_of t).ipc.host2ish_drbl then (err epipe, t) else acknowledge fw t

abbrev pub answered_by : Firmware → Option Host → Option (Code × Host)
answered_by fw none = none
answered_by fw (some s) = some (answer_reset fw s)

-- `none`: a client in the list is freed.
unfoldable pub ish_fw_reset_handler : Firmware → Host → Option (Code × Host)
unfolding notify_reset answer_reset
ish_fw_reset_handler fw s = answered_by fw (notify_reset s)

abbrev pub restarted : Platform → Option (Code × Host) → Option Host
restarted h none = none
restarted h (some (err e, s)) = some s
restarted h (some (ok n, s)) = some (record s {
  hw = record (s.hw) {
    recvd_hw_ready = true;
    machine = record (s.hw.machine) { bus = ishtp_reset_compl_handler h s.hw.machine.bus };
  };
})

unfoldable pub fw_reset_work_fn : Platform → Firmware → Host → Option Host
unfolding ish_fw_reset_handler ishtp_reset_compl_handler
fw_reset_work_fn h fw s =
    restarted h
      (ish_fw_reset_handler fw (record s { hw = record (s.hw) { fw_reset_work = false } }))

-- MNG_RESET_NOTIFY with the reset id 1, after which the acknowledgement is awaited.
unfoldable pub ish_ipc_reset : Firmware → Host → Code × Host
unfolding set_host_ready ipc_send_mng_msg le_bytes
ish_ipc_reset fw s =
    let t = record s {
      regs = set_host_ready s.regs;
      hw = record (s.hw) { recvd_hw_ready = false };
    } in
    let (rv, dev) = ipc_send_mng_msg (dev_of t) 3 (le_bytes 4 1) in
    let u = put_dev dev t in
    elim rv [
      | err e ↦ (err e, u)
      | ok n ↦
          let v = record u { hw = record (u.hw) { recvd_hw_ready = fw.hw_ready } } in
          if fw.hw_ready then (ok 0, v) else (err enodev, v)
    ]

-- The wake-up sets the DMA enable bit too.
unfoldable pub ish_hw_start : Firmware → Host → Code × Host
unfolding ish_set_host_rdy set_host_ready ish_wakeup
ish_hw_start fw s =
    let t =
      put_dev (ish_wakeup (dev_of s))
        (record s { regs = record (set_host_ready (ish_set_host_rdy s.regs)) { rmp2 = 1 } }) in
    let ready = t.hw.recvd_hw_ready || fw.hw_ready in
    let u = record t { hw = record (t.hw) { recvd_hw_ready = ready } } in
    if ready then (ok 0, u) else (err enodev, u)

-- The loop over `dma_delay`, in steps of 5 up to MAX_DMA_DELAY, which is 20.
unfoldable pub dma_wait : ℕ → (ℕ → Bool) → ℕ → ℕ
dma_wait zero busy dma_delay = dma_delay
dma_wait (suc fuel) busy dma_delay = elim (ltb dma_delay 20 && busy dma_delay) [
  | false ↦ dma_delay
  | true ↦ dma_wait fuel busy (dma_delay + 5)
]

unfoldable pub ish_disable_dma : Firmware → Regs → Code × Regs
unfolding dma_wait
ish_disable_dma fw r =
    (if ltb (dma_wait 5 fw.dma_busy 0) 20 then ok 0 else err ebusy, record r { rmp2 = 0 })

-- If there is a PCI device, and its DMA comes to rest.
unfoldable pub ish_device_disable : Bool → Firmware → Host → Host
unfolding ish_disable_dma ish_clr_host_rdy
ish_device_disable pdev fw s =
    if not pdev
    then s
    else (let (rv, r) = ish_disable_dma fw s.regs in
        elim rv as (λ c. Host) [
          | err e ↦ record s { regs = r }
          | ok n ↦
              put_dev (record (dev_of s) { dev_state = disabled })
                (record s { regs = ish_clr_host_rdy r })
        ])

abbrev pub is_waiting : HbmState → Bool
is_waiting hbm_idle = true
is_waiting hbm_start = true
is_waiting _ = false

-- `later` is the state of the protocol after the wait, `timed_out` whether that ended by its time or a
-- signal.
unfoldable pub ishtp_hbm_start_wait : HbmState → Bool → Startup → Code × Startup
ishtp_hbm_start_wait later timed_out s =
    if not (is_waiting s.hbm_state)
    then (ok 0, s)
    else if timed_out && is_waiting later
    then (err etimedout, record s { hbm_state = hbm_idle })
    else (ok 0, record s { hbm_state = later })

unfoldable pub ishtp_start : HbmState → Bool → Machine → Code × Machine
unfolding ishtp_hbm_start_wait ishtp_query_subscribers
ishtp_start later timed_out m =
    let (rv, s) = ishtp_hbm_start_wait later timed_out m.bus in
    elim rv [
      | ok n ↦ (ok 0, ishtp_query_subscribers (record m { bus = s }))
      | err e ↦ (
        err enodev,
        record m { bus = record s { dev = record (s.dev) { dev_state = disabled } } },
      )
    ]
