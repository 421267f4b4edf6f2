-- ===== src/Ishtp/Rings/Alloc.antt =====
-- The allocation of the ring buffers, src/intel-ish-hid-linux-6.5/ishtp/client-buffers.c: all or nothing.
use ubuntu_elkhart_lake_pse.Prelude.{
  ℕ, zero, suc, ◌+◌, ◌<◌, ◌≡◌, refl, Bool, true, false, List, [], ◌∷◌, ◌++◌, some, arith, length,
  length-append, Option-cases, inl, inr,
}
use ubuntu_elkhart_lake_pse.Ishtp.Types.{Code, ok, err, enomem, Rb, Client, Device, Sys}
use ubuntu_elkhart_lake_pse.Ishtp.Hbm.{ishtp_hbm_cl_flow_control_req}
use ubuntu_elkhart_lake_pse.Ishtp.Rings.{
  kmalloc, zeros, new_rb, alloc_buf, ishtp_io_rb_alloc_buf, ishtp_io_rb_init, rx_failed,
  rx_ring_loop, ishtp_cl_alloc_rx_ring, ishtp_cl_free_rx_ring, new_tx_buf, tx_failed, tx_ring_loop,
  ishtp_cl_alloc_tx_ring, ishtp_cl_free_tx_ring, ishtp_cl_read_start, start_read, flow_control_sent,
}

-- A receive buffer of `len` bytes for the client at `addr`.
abbrev pub RxReady : ℕ → ℕ → Rb → Type 0
RxReady addr len rb =
    (rb.cl ≡ some addr) × (rb.size ≡ len) × (rb.content ≡ some (zeros len)) × (rb.buf_idx ≡ 0)

abbrev pub AllRxReady : ℕ → ℕ → List Rb → Type 0
AllRxReady addr len [] = Unit
AllRxReady addr len (rb ∷ rbs) = RxReady addr len rb × AllRxReady addr len rbs

-- A ring of `k` buffers, or none at all.
abbrev pub RxRing : ℕ → ℕ → ℕ → Code × Sys → Type 0
RxRing addr len k (ok n, s) = (length s.cl.free_rb_list ≡ k) × AllRxReady addr len s.cl.free_rb_list
RxRing addr len k (err e, s) = (e ≡ enomem) × (s.cl.free_rb_list ≡ []) × (s.cl.in_process_list ≡ [])

new_rb-RxReady :
    (addr len : ℕ) (r : Bool × Device) (rb : Rb) (dev : Device)
    → 0 < len
    → new_rb addr len r ≡ (some rb, dev)
    → RxReady addr len rb
unfolding new_rb ishtp_io_rb_alloc_buf ishtp_io_rb_init alloc_buf
new_rb-RxReady addr len (false, d) rb dev z h = ground arith
new_rb-RxReady addr len (true, d) rb dev z h = ground arith

AllRxReady-snoc :
    (addr len : ℕ) (rbs : List Rb) (rb : Rb)
    → AllRxReady addr len rbs
    → RxReady addr len rb
    → AllRxReady addr len (rbs ++ rb ∷ [])
AllRxReady-snoc addr len [] rb a r = (r, tt)
AllRxReady-snoc addr len (x ∷ rbs) rb (h, a) r = (h, AllRxReady-snoc addr len rbs rb a r)

rx_ring_loop-RxRing :
    (n len k : ℕ) (s : Sys)
    → 0 < len
    → AllRxReady s.cl.addr len s.cl.free_rb_list
    → length s.cl.free_rb_list + n ≡ k
    → RxRing s.cl.addr len k (rx_ring_loop n len s)
unfolding rx_ring_loop rx_failed ishtp_cl_free_rx_ring
rx_ring_loop-RxRing zero len k s z a l = ground arith
rx_ring_loop-RxRing (suc n) len k s z a l =
    elim (Option-cases (new_rb s.cl.addr len (kmalloc s.dev)).0) [
      | inl e ↦ ground arith
      | inr (rb, e) ↦
          let dev = (new_rb s.cl.addr len (kmalloc s.dev)).1 in
          let t : Sys = record {
            dev = dev;
            cl = record (s.cl) { free_rb_list = s.cl.free_rb_list ++ rb ∷ [] };
          } in
          ground (
            arith,
            rx_ring_loop-RxRing n len k t z
                (AllRxReady-snoc s.cl.addr len s.cl.free_rb_list rb a
                  (new_rb-RxReady s.cl.addr len (kmalloc s.dev) rb dev z (ground arith)))
                (omega (arith, length-append s.cl.free_rb_list (rb ∷ []), l)),
          )
    ]

-- The allocation of the receive ring of a client that has no buffers yet gives `rx_ring_size` buffers,
-- each with a block of the size of the largest message, empty and pointing to the client; or, if any
-- of the memory allocations fails, it returns -ENOMEM and the client has no buffer.
pub alloc_rx_ring_lem :
    (s : Sys) (len : ℕ)
    → 0 < len
    → s.cl.free_rb_list ≡ []
    → RxRing s.cl.addr len s.cl.rx_ring_size (ishtp_cl_alloc_rx_ring s len)
unfolding ishtp_cl_alloc_rx_ring
alloc_rx_ring_lem s len z e =
    rx_ring_loop-RxRing s.cl.rx_ring_size len s.cl.rx_ring_size s z (rw e tt) (rw e (omega arith))

-- A ring of `k` buffers for messages of up to `len` bytes, with their count; or none at all.
abbrev pub TxRing : ℕ → Code × Sys → Type 0
TxRing k (ok n, s) = (length s.cl.tx_free_list ≡ k) × (s.cl.tx_ring_free_size ≡ k)
TxRing k (err e, s) =
    (e ≡ enomem) × (s.cl.tx_free_list ≡ []) × (s.cl.tx_list ≡ []) × (s.cl.tx_ring_free_size ≡ 0)

tx_ring_loop-TxRing :
    (n len k : ℕ) (s : Sys)
    → s.cl.tx_ring_free_size ≡ length s.cl.tx_free_list
    → length s.cl.tx_free_list + n ≡ k
    → TxRing k (tx_ring_loop n len s)
unfolding tx_ring_loop tx_failed ishtp_cl_free_tx_ring
tx_ring_loop-TxRing zero len k s c l = ground arith
tx_ring_loop-TxRing (suc n) len k s c l = elim (Option-cases (new_tx_buf len (kmalloc s.dev)).0) [
  | inl e ↦ ground arith
  | inr (b, e) ↦
      let t : Sys = record {
        dev = (new_tx_buf len (kmalloc s.dev)).1;
        cl = record (s.cl) {
          tx_free_list = s.cl.tx_free_list ++ b ∷ [];
          tx_ring_free_size = s.cl.tx_ring_free_size + 1;
        };
      } in
      ground (
        arith,
        tx_ring_loop-TxRing n len k t (omega (arith, length-append s.cl.tx_free_list (b ∷ []), c))
            (omega (arith, length-append s.cl.tx_free_list (b ∷ []), l)),
      )
]

-- The allocation of the transmit ring of a client that has no buffers yet gives `tx_ring_size` free
-- buffers, and `tx_ring_free_size` counts them; or it returns -ENOMEM and the client has no buffer.
pub alloc_tx_ring_lem :
    (s : Sys) (len : ℕ)
    → s.cl.tx_free_list ≡ []
    → TxRing s.cl.tx_ring_size (ishtp_cl_alloc_tx_ring s len)
unfolding ishtp_cl_alloc_tx_ring
alloc_tx_ring_lem s len e =
    let t : Sys = record s { cl = record (s.cl) { tx_ring_free_size = 0 } } in
    tx_ring_loop-TxRing s.cl.tx_ring_size len s.cl.tx_ring_size t (rw e refl) (rw e (omega arith))

rx_ring_loop_state : (n len : ℕ) (s : Sys) → (rx_ring_loop n len s).1.cl.state ≡ s.cl.state
unfolding rx_ring_loop rx_failed ishtp_cl_free_rx_ring
rx_ring_loop_state zero len s = refl
rx_ring_loop_state (suc n) len s = elim (Option-cases (new_rb s.cl.addr len (kmalloc s.dev)).0) [
  | inl e ↦ ground arith
  | inr (rb, e) ↦
      let t : Sys = record {
        dev = (new_rb s.cl.addr len (kmalloc s.dev)).1;
        cl = record (s.cl) { free_rb_list = s.cl.free_rb_list ++ rb ∷ [] };
      } in
      ground (arith, rx_ring_loop_state n len t)
]

tx_ring_loop_state : (n len : ℕ) (s : Sys) → (tx_ring_loop n len s).1.cl.state ≡ s.cl.state
unfolding tx_ring_loop tx_failed ishtp_cl_free_tx_ring
tx_ring_loop_state zero len s = refl
tx_ring_loop_state (suc n) len s = elim (Option-cases (new_tx_buf len (kmalloc s.dev)).0) [
  | inl e ↦ ground arith
  | inr (b, e) ↦
      let t : Sys = record {
        dev = (new_tx_buf len (kmalloc s.dev)).1;
        cl = record (s.cl) {
          tx_free_list = s.cl.tx_free_list ++ b ∷ [];
          tx_ring_free_size = s.cl.tx_ring_free_size + 1;
        };
      } in
      ground (arith, tx_ring_loop_state n len t)
]

-- The rings have nothing to do with the state of the client.
pub alloc_rx_ring_state :
    (s : Sys) (len : ℕ) → (ishtp_cl_alloc_rx_ring s len).1.cl.state ≡ s.cl.state
unfolding ishtp_cl_alloc_rx_ring
alloc_rx_ring_state s len = rx_ring_loop_state s.cl.rx_ring_size len s

pub alloc_tx_ring_state :
    (s : Sys) (len : ℕ) → (ishtp_cl_alloc_tx_ring s len).1.cl.state ≡ s.cl.state
unfolding ishtp_cl_alloc_tx_ring
alloc_tx_ring_state s len =
    tx_ring_loop_state s.cl.tx_ring_size len
      (record s { cl = record (s.cl) { tx_ring_free_size = 0 } })

pub free_rx_ring_state : (cl : Client) → (ishtp_cl_free_rx_ring cl).state ≡ cl.state
unfolding ishtp_cl_free_rx_ring
free_rx_ring_state cl = refl

pub read_start_state : (s : Sys) → (ishtp_cl_read_start s).1.cl.state ≡ s.cl.state
unfolding ishtp_cl_read_start start_read flow_control_sent ishtp_hbm_cl_flow_control_req
read_start_state s = ground arith
