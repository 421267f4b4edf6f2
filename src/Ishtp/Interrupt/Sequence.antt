-- ===== src/Ishtp/Interrupt/Sequence.antt =====
-- Any sequence of interrupts, src/intel-ish-hid-linux-6.5/ipc/ipc.c: `ish_irq_handler` with all that it calls.
use ubuntu_elkhart_lake_pse.Prelude.{
  ℕ, ◌+◌, ◌*◌, ◌≤◌, ◌≡◌, refl, ap, ◌∙◌, Bool, Bool-cases, true, false, not, ◌&&◌, List, [], ◌∷◌,
  Option, none, some, arith, inl, inr, ◌==◌, ltb, length, get_or, take, drop, length-append,
  length-take, length-drop, if◌then◌else◌,
}
use ubuntu_elkhart_lake_pse.Prelude.Bytes.{from_le}
use ubuntu_elkhart_lake_pse.Ishtp.Types.{is_disabled}
use ubuntu_elkhart_lake_pse.Ishtp.Ipc.{is_busy}
use ubuntu_elkhart_lake_pse.Ishtp.Recv.{ishtp_read}
use ubuntu_elkhart_lake_pse.Ishtp.Startup.{Platform}
use ubuntu_elkhart_lake_pse.Ishtp.Transfer.{world_of}
use ubuntu_elkhart_lake_pse.Ishtp.Dispatch.{
  Machine, connect_response, rd_msg_buf, is_quick, handle_hbm, recv_hbm, recv_fixed_cl_msg,
  ishtp_send_resume, msg_hdr, route, ishtp_recv,
}
use ubuntu_elkhart_lake_pse.Ishtp.Interrupt.{
  header_length, header_protocol, header_mng_cmd, Irq, Hw, ish_sync_fw_clock, recv_ipc, by_protocol,
  eoi, ish_irq_handler, interrupts,
}
use ubuntu_elkhart_lake_pse.Ishtp.Interrupt.Live.{
  recv_ishtp_cl_msg-StaysLive, flow_control-StaysLive,
}
use ubuntu_elkhart_lake_pse.Ishtp.Interrupt.Safe.{
  IsSafe, StaysSafe, with_clients-StaysSafe, quick-StaysSafe,
}

-- A message that leaves the transfers that it may hold within the message buffer, which has 128 bytes.
abbrev pub Fits : Irq → Type 0
Fits irq = ((msg_hdr irq.hdr_word).length ≤ 120) × (128 ≤ length irq.stack)

handle_hbm-StaysSafe :
    (h : Platform) (rx_mem : ℕ → ℕ) (msg : List ℕ) (m : Machine)
    → m.ishtp_msg_hdr.length ≤ 120
    → 128 ≤ length msg
    → IsSafe m.bus
    → StaysSafe (handle_hbm h rx_mem msg m)
unfolding handle_hbm
handle_hbm-StaysSafe h rx_mem msg m k j i = elim (Bool-cases (get_or msg 0 0 == 8)) [
  | inl e ↦ rw e (
      with_clients-StaysSafe m _
        (flow_control-StaysLive (world_of m.bus) (connect_response msg) i.live) i.buffered)
  | inr e ↦ elim (Bool-cases (is_quick (get_or msg 0 0))) [
    | inl f ↦ rw (e, f) (quick-StaysSafe h rx_mem msg m f k j i)
    | inr f ↦ rw (e, f) (_, refl, i)
  ]
]

length-rd_msg_buf :
    (stack regs : List ℕ) (n : ℕ) → 128 ≤ length stack → 128 ≤ length (rd_msg_buf stack regs n)
unfolding rd_msg_buf
length-rd_msg_buf stack regs n k =
    let words = ishtp_read regs n in
    omega (
      arith,
      length-append (take (length words) words) (drop (length words) stack),
      length-take (length words) words,
      length-drop (length words) stack,
    )

if-IsSafe :
    (b : Bool) (x y : Machine) → IsSafe x.bus → IsSafe y.bus → IsSafe (if b then x else y).bus
if-IsSafe true x y i j = i
if-IsSafe false x y i j = j

-- A message that is written changes none of the lists.
resume-IsSafe : (m : Machine) → IsSafe m.bus → IsSafe (ishtp_send_resume m).bus
unfolding ishtp_send_resume
resume-IsSafe m i = record {
  live = record { posted = i.live.posted; listed = i.live.listed };
  buffered = i.buffered;
}

recv_fixed-IsSafe :
    (stack regs : List ℕ) (m : Machine) → IsSafe m.bus → IsSafe (recv_fixed_cl_msg stack regs m).bus
unfolding recv_fixed_cl_msg
recv_fixed-IsSafe stack regs m i =
    if-IsSafe
      (m.ishtp_msg_hdr.fw_addr == 13
        && from_le (take 4 (rd_msg_buf stack regs m.ishtp_msg_hdr.length)) == 1)
      (ishtp_send_resume m) m (resume-IsSafe m i) i

sync-IsSafe : (irq : Irq) (m : Machine) → IsSafe m.bus → IsSafe (ish_sync_fw_clock irq m).bus
unfolding ish_sync_fw_clock
sync-IsSafe irq m i =
    elim (Bool-cases (not (m.prev_sync == 0) && ltb irq.jiffies (m.prev_sync + 20 * irq.hz))) [
      | inl e ↦ rw e i
      | inr e ↦ rw e (record {
        live = record { posted = i.live.posted; listed = i.live.listed };
        buffered = i.buffered;
      })
    ]

route-StaysSafe :
    (h : Platform) (rx_mem : ℕ → ℕ) (stack regs : List ℕ) (m : Machine)
    → m.ishtp_msg_hdr.length ≤ 120
    → 128 ≤ length stack
    → IsSafe m.bus
    → StaysSafe (route h rx_mem stack regs m)
unfolding route recv_hbm
route-StaysSafe h rx_mem stack regs m k j i =
    let hdr = m.ishtp_msg_hdr in
    elim (Bool-cases (hdr.host_addr == 0 && hdr.fw_addr == 0)) [
      | inl e ↦ rw e (
          handle_hbm-StaysSafe h rx_mem (rd_msg_buf stack regs hdr.length) m k
            (length-rd_msg_buf stack regs hdr.length j) i)
      | inr e ↦ elim (Bool-cases (hdr.host_addr == 0)) [
        | inl f ↦ rw (e, f) (recv_fixed_cl_msg stack regs m, refl, recv_fixed-IsSafe stack regs m i)
        | inr f ↦
            rw (e, f)
              (with_clients-StaysSafe m _
                (recv_ishtp_cl_msg-StaysLive (world_of m.bus) hdr regs i.live) i.buffered)
      ]
    ]

ishtp_recv-StaysSafe :
    (h : Platform) (irq : Irq) (m : Machine)
    → Fits irq
    → IsSafe m.bus
    → StaysSafe (ishtp_recv h (ish_sync_fw_clock irq) irq.rx_mem irq.stack irq.hdr_word irq.regs m)
unfolding ishtp_recv
ishtp_recv-StaysSafe h irq m (k, j) i =
    let t : Machine = record (ish_sync_fw_clock irq m) { ishtp_msg_hdr = msg_hdr irq.hdr_word } in
    let u : IsSafe t.bus = sync-IsSafe irq m i in
    elim (Bool-cases (irq.hdr_word == 0)) [
      | inl e ↦ rw e (m, refl, i)
      | inr e ↦ elim (Bool-cases (ltb t.bus.dev.mtu (msg_hdr irq.hdr_word).length)) [
        | inl f ↦ rw (e, f) (t, refl, u)
        | inr f ↦ rw (e, f) (route-StaysSafe h irq.rx_mem irq.stack irq.regs t k j u)
      ]
    ]

-- An interrupt that used no freed memory and left all safe.
abbrev pub IrqSafe : Option Hw → Type 0
IrqSafe o = (s : Hw) × (o ≡ some s) × IsSafe s.machine.bus

recv_ipc-IsSafe : (drbl : ℕ) (s : Hw) → IsSafe s.machine.bus → IsSafe (recv_ipc drbl s).machine.bus
unfolding recv_ipc
recv_ipc-IsSafe drbl s i = elim (Bool-cases (header_mng_cmd drbl == 2)) [
  | inl e ↦ rw e (record {
    live = record { posted = i.live.posted; listed = i.live.listed };
    buffered = i.buffered;
  })
  | inr e ↦ elim (Bool-cases (header_mng_cmd drbl == 3)) [
    | inl f ↦ rw (e, f) i
    | inr f ↦ elim (Bool-cases (header_mng_cmd drbl == 4)) [
      | inl g ↦ rw (e, f, g) i
      | inr g ↦ rw (e, f, g) i
    ]
  ]
]

by_protocol-IrqSafe :
    (h : Platform) (irq : Irq) (s : Hw)
    → Fits irq
    → IsSafe s.machine.bus
    → IrqSafe (by_protocol h irq s)
unfolding by_protocol
by_protocol-IrqSafe h irq s f i = elim (Bool-cases (header_protocol irq.drbl == 3)) [
  | inl e ↦ rw e (recv_ipc irq.drbl s, refl, recv_ipc-IsSafe irq.drbl s i)
  | inr e ↦ elim (Bool-cases (header_protocol irq.drbl == 1)) [
    | inr g ↦ rw (e, g) (s, refl, i)
    | inl g ↦
        let (m, p, j) = ishtp_recv-StaysSafe h irq s.machine f i in
        rw (e, g, p) (record s { machine = m }, refl, j)
  ]
]

eoi-IrqSafe : (drbl : ℕ) (o : Option Hw) → IrqSafe o → IrqSafe (eoi drbl o)
eoi-IrqSafe drbl o (s, e, i) = rw e (_, refl, i)

either-IrqSafe : (b : Bool) (x y : Option Hw) → IrqSafe x → IrqSafe y → IrqSafe (if b then x else y)
either-IrqSafe true x y i j = i
either-IrqSafe false x y i j = j

irq_handler-IrqSafe :
    (h : Platform) (irq : Irq) (s : Hw)
    → Fits irq
    → IsSafe s.machine.bus
    → IrqSafe (ish_irq_handler h irq s)
unfolding ish_irq_handler
irq_handler-IrqSafe h irq s f i =
    either-IrqSafe (not irq.interrupt_generated) (some s) _ (s, refl, i)
      (either-IrqSafe (not (is_busy irq.drbl)) (some s) _ (s, refl, i)
        (either-IrqSafe (is_disabled s.machine.bus.dev.dev_state) (some s) _ (s, refl, i)
          (either-IrqSafe (ltb 128 (header_length irq.drbl)) (eoi irq.drbl (some s)) _
            (eoi-IrqSafe irq.drbl (some s) (s, refl, i))
            (eoi-IrqSafe irq.drbl (by_protocol h irq s) (by_protocol-IrqSafe h irq s f i)))))

abbrev pub AllFit : List Irq → Type 0
AllFit [] = Unit
AllFit (irq ∷ irqs) = Fits irq × AllFit irqs

-- From a state in which all posted buffers and all listed clients are in memory, and the DMA Rx buffer is
-- there if DMA is on: however many interrupts come, and whatever the firmware has written to the doorbell,
-- to the message registers and to DMA memory, no interrupt uses a freed client, reads through a missing
-- DMA buffer or reads behind the message buffer, as long as no message is longer than 120 bytes; and
-- the state after them is such a state again. Messages of any kind and for any client are meant, in
-- any order and cut in any way. What the copy of whole words writes behind a receive buffer is left out.
pub interrupts-IrqSafe :
    (h : Platform) (irqs : List Irq) (s : Hw)
    → AllFit irqs
    → IsSafe s.machine.bus
    → IrqSafe (interrupts h irqs s)
unfolding interrupts
interrupts-IrqSafe h [] s f i = (s, refl, i)
interrupts-IrqSafe h (irq ∷ irqs) s (f, fs) i =
    let (t, e, j) = irq_handler-IrqSafe h irq s f i in
    let (u, g, k) = interrupts-IrqSafe h irqs t fs j in (u, after t e ∙ g, k)
  where
    after :
        (t : Hw)
        → ish_irq_handler h irq s ≡ some t
        → interrupts h (irq ∷ irqs) s ≡ interrupts h irqs t
    after t e =
        ap (λ o. elim o as (λ x. Option Hw) [ none ↦ none | some u ↦ interrupts h irqs u ]) e
