-- ===== src/Ishtp/Interrupt/Safe.antt =====
-- Interrupts never use a freed client, whatever the firmware writes, src/intel-ish-hid-linux-6.5/ipc/ipc.c and
-- what it calls.
use mathlib.Core.Path.{subst, sym}
use ubuntu_elkhart_lake_pse.Prelude.{
  ℕ, zero, suc, ◌+◌, ◌*◌, ◌≤◌, ◌≡◌, refl, Bool-cases, true, false, List, Option, none, some, arith,
  inl, inr, ◌==◌, ltb, length, get_or,
}
use ubuntu_elkhart_lake_pse.Ishtp.Types.{World}
use ubuntu_elkhart_lake_pse.Ishtp.Startup.{Platform, Startup}
use ubuntu_elkhart_lake_pse.Ishtp.Inbox.{fetch}
use ubuntu_elkhart_lake_pse.Ishtp.Transfer.{
  xfer_at, offset_in, in_buffer, recv_ishtp_cl_msg_dma, Walk, access_fault, stopped, at_end,
  with_world, world_of, rounds_for, rx_bytes, received, xfer_round, xfer_rounds, acked,
  ishtp_hbm_dma_xfer,
}
use ubuntu_elkhart_lake_pse.Ishtp.Dispatch.{
  Machine, with_bus, with_clients, connect_response, dispatch_dma, ishtp_hbm_dispatch, is_quick,
}
use ubuntu_elkhart_lake_pse.Ishtp.Interrupt.Live.{
  IsLive, StaysLive, recv_dma-StaysLive, connect_res-StaysLive, disconnect_res-StaysLive,
  fw_disconnect_req-StaysLive,
}

-- Where DMA is in use there is a DMA Rx buffer.
abbrev pub HasBuffer : Startup → Type 0
HasBuffer s = s.host_dma_enabled ≡ true → (a : ℕ) × (s.dma_rx_buf ≡ some a)

-- The clients that the lists point to are in memory, and so is the DMA Rx buffer if there is to be one.
pub record IsSafe (s : Startup) : Type 0 where
  pub live : IsLive (world_of s)
  pub buffered : HasBuffer s

-- A step that used no freed memory and left all safe.
abbrev pub StaysSafe : Option Machine → Type 0
StaysSafe o = (m : Machine) × (o ≡ some m) × IsSafe m.bus

pub with_clients-StaysSafe :
    (m : Machine) (o : Option World) → StaysLive o → HasBuffer m.bus → StaysSafe (with_clients m o)
with_clients-StaysSafe m o (w, e, l) b =
    (record m { bus = with_world m.bus w }, rw e refl, record { live = l; buffered = b })

-- Where a walk over the transfers may be.
abbrev Walks : ℕ → Walk → Type 0
Walks a access_fault = ⊥
Walks a (stopped s) = IsLive (world_of s) × (s.dma_rx_buf ≡ some a)
Walks a (at_end s) = IsLive (world_of s) × (s.dma_rx_buf ≡ some a)

received-Walks :
    (a : ℕ) (s : Startup) (o : Option World)
    → s.dma_rx_buf ≡ some a
    → StaysLive o
    → Walks a (received s o)
received-Walks a s o b (w, e, l) = rw e (l, b)

xfer_round-Walks :
    (a : ℕ) (rx_mem : ℕ → ℕ) (bytes : List ℕ) (at : ℕ) (s : Startup)
    → at + 16 ≤ length bytes
    → IsLive (world_of s)
    → s.dma_rx_buf ≡ some a
    → Walks a (xfer_round rx_mem bytes at s)
unfolding xfer_round
xfer_round-Walks a rx_mem bytes at s k l b =
    let x = xfer_at bytes at in
    let offs = offset_in s.dma_rx_buf_phys x.msg_addr in
    let near : ltb (length bytes) (at + 16) ≡ false = ground arith in
    elim (Bool-cases (in_buffer s.dma_rx_buf_size offs x.msg_length)) [
      | inr e ↦ rw (near, e) (l, b)
      | inl e ↦
          rw (near, e)
            (received-Walks a s
              (recv_ishtp_cl_msg_dma (world_of s) (rx_bytes rx_mem s offs x.msg_length) x) b
              (subst
                (λ o. StaysLive (
                  recv_ishtp_cl_msg_dma (world_of s)
                    (elim o as (λ y. Option (List ℕ)) [
                      | none ↦ none
                      | some c ↦ some (fetch rx_mem offs x.msg_length)
                    ])
                    x))
                (sym b) (recv_dma-StaysLive (world_of s) (fetch rx_mem offs x.msg_length) x l)))
    ]

xfer_rounds-Walks :
    (a n : ℕ) (rx_mem : ℕ → ℕ) (bytes : List ℕ) (at : ℕ) (s : Startup)
    → at + 20 * n ≤ length bytes + 4
    → IsLive (world_of s)
    → s.dma_rx_buf ≡ some a
    → Walks a (xfer_rounds n rx_mem bytes at s)
unfolding xfer_rounds
xfer_rounds-Walks a zero rx_mem bytes at s k l b = (l, b)
xfer_rounds-Walks a (suc n) rx_mem bytes at s k l b =
    goes_on (xfer_round rx_mem bytes at s) (xfer_round-Walks a rx_mem bytes at s (omega arith) l b)
      (λ t g c. xfer_rounds-Walks a n rx_mem bytes (at + 20) t (omega (arith, k)) g c)
  where
    goes_on :
        (v : Walk)
        → Walks a v
        → ((t : Startup)
            → IsLive (world_of t)
            → t.dma_rx_buf ≡ some a
            → Walks a (xfer_rounds n rx_mem bytes (at + 20) t))
        → Walks a (elim v as (λ x. Walk) [
          | access_fault ↦ access_fault
          | stopped t ↦ stopped t
          | at_end t ↦ xfer_rounds n rx_mem bytes (at + 20) t
        ])
    goes_on access_fault g rest = g
    goes_on (stopped t) g rest = g
    goes_on (at_end t) (g, c) rest = rest t g c

acked-IsSafe :
    (a n : ℕ) (bytes : List ℕ) (v : Walk)
    → Walks a v
    → (s : Startup) × (acked n bytes v ≡ some s) × IsSafe s
acked-IsSafe a n bytes access_fault g = absurd g
acked-IsSafe a n bytes (stopped s) (l, b) = (s, refl, record { live = l; buffered = λ e. (a, b) })
acked-IsSafe a n bytes (at_end s) (l, b) = (
  _,
  refl,
  record { live = record { posted = l.posted; listed = l.listed }; buffered = λ e. (a, b) },
)

-- A transfer message of 120 bytes at most, in the buffer of 128.
dma_xfer-IsSafe :
    (n a : ℕ) (rx_mem : ℕ → ℕ) (bytes : List ℕ) (s : Startup)
    → n ≤ 120
    → 128 ≤ length bytes
    → IsLive (world_of s)
    → s.dma_rx_buf ≡ some a
    → (t : Startup) × (ishtp_hbm_dma_xfer n rx_mem bytes s ≡ some t) × IsSafe t
unfolding ishtp_hbm_dma_xfer
dma_xfer-IsSafe n a rx_mem bytes s k j l b =
    acked-IsSafe a n bytes (xfer_rounds (rounds_for n) rx_mem bytes 0 s)
      (xfer_rounds-Walks a (rounds_for n) rx_mem bytes 0 s (omega arith) l b)

dispatch_dma-IsSafe :
    (rx_mem : ℕ → ℕ) (msg : List ℕ) (cmd : ℕ) (m : Machine)
    → cmd == 0x12 ≡ true
    → m.ishtp_msg_hdr.length ≤ 120
    → 128 ≤ length msg
    → IsSafe m.bus
    → (t : Startup) × (dispatch_dma rx_mem msg cmd m ≡ some t) × IsSafe t
unfolding dispatch_dma
dispatch_dma-IsSafe rx_mem msg cmd m c k j i = elim (Bool-cases m.bus.host_dma_enabled) [
  | inr e ↦ (m.bus, ground arith, i)
  | inl e ↦
      let (a, b) = i.buffered e in
      let (t, g, u) = dma_xfer-IsSafe m.ishtp_msg_hdr.length a rx_mem msg m.bus k j i.live b in
      (t, ground arith, u)
]

bus-StaysSafe :
    (m : Machine) (o : Option Startup)
    → ((t : Startup) × (o ≡ some t) × IsSafe t)
    → StaysSafe (with_bus m o)
bus-StaysSafe m o (t, e, i) = (record m { bus = t }, rw e refl, i)

-- The messages that are handled in the interrupt.
pub quick-StaysSafe :
    (h : Platform) (rx_mem : ℕ → ℕ) (msg : List ℕ) (m : Machine)
    → is_quick (get_or msg 0 0) ≡ true
    → m.ishtp_msg_hdr.length ≤ 120
    → 128 ≤ length msg
    → IsSafe m.bus
    → StaysSafe (ishtp_hbm_dispatch h rx_mem msg m)
unfolding ishtp_hbm_dispatch
quick-StaysSafe h rx_mem msg m q k j i =
    let w = world_of m.bus in
    let cmd = get_or msg 0 0 in
    elim (Bool-cases (cmd == 0x86)) [
      | inl e ↦ rw e (
          with_clients-StaysSafe m _ (connect_res-StaysLive w (connect_response msg) i.live)
            i.buffered)
      | inr e ↦ elim (Bool-cases (cmd == 0x87)) [
        | inl f ↦
            rw (e, f)
              (with_clients-StaysSafe m _ (disconnect_res-StaysLive w (connect_response msg) i.live)
                i.buffered)
        | inr f ↦ elim (Bool-cases (cmd == 0x07)) [
          | inl g ↦
              rw (e, f, g)
                (with_clients-StaysSafe m _
                  (fw_disconnect_req-StaysLive w (connect_response msg) i.live) i.buffered)
          | inr g ↦
              let d : cmd == 0x12 ≡ true = ground arith in
              let by_dma : ishtp_hbm_dispatch h rx_mem msg m
                  ≡ with_bus m (dispatch_dma rx_mem msg cmd m) =
                rw (e, f, g, d) refl in
              rw by_dma (bus-StaysSafe m _ (dispatch_dma-IsSafe rx_mem msg cmd m d k j i))
        ]
      ]
    ]
