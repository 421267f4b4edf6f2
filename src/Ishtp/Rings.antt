-- ===== src/Ishtp/Rings.antt =====
-- Receive and transmit ring buffers, src/intel-ish-hid-linux-6.5/ishtp/client-buffers.c, with
-- ishtp_cl_read_start of client.c, which the recycling of a buffer calls.
pub mod Credits
pub mod Alloc
use ubuntu_elkhart_lake_pse.Prelude.{
  ℕ, zero, suc, ◌+◌, ◌-◌, Bool, true, false, not, List, [], ◌∷◌, ◌++◌, Option, none, some, ◌==◌,
  if◌then◌else◌, length,
}
use ubuntu_elkhart_lake_pse.Ishtp.Types.{
  Errno, Code, ok, err, enodev, enomem, efault, is_enabled, is_connected, FwClient, Rb, TxBuf,
  Client, Device, Sys,
}
use ubuntu_elkhart_lake_pse.Ishtp.Hbm.{ishtp_hbm_cl_flow_control_req}
use ubuntu_elkhart_lake_pse.Ishtp.Send.{ishtp_fw_cl_by_id}

-- The outcome of the next allocation; a device that has no outcome left is out of memory.
granted : List Bool → Bool
granted [] = false
granted (b ∷ bs) = b

later : List Bool → List Bool
later [] = []
later (b ∷ bs) = bs

unfoldable pub kmalloc : Device → Bool × Device
unfolding granted later
kmalloc dev =
    (granted dev.grants, record dev { grants = later dev.grants; next_id = dev.next_id + 1 })

-- What `kmalloc` leaves in fresh memory is not determined; zeros stand for it.
unfoldable pub zeros : ℕ → List ℕ
zeros zero = []
zeros (suc n) = 0 ∷ zeros n

unfoldable pub ishtp_cl_free_rx_ring : Client → Client
ishtp_cl_free_rx_ring cl = record cl { free_rb_list = []; in_process_list = [] }

unfoldable pub ishtp_cl_free_tx_ring : Client → Client
ishtp_cl_free_tx_ring cl = record cl {
  tx_free_list = [];
  tx_ring_free_size = cl.tx_ring_free_size - length cl.tx_free_list;
  tx_list = [];
}

unfoldable pub ishtp_io_rb_init : ℕ → ℕ → Rb
ishtp_io_rb_init id addr = record { id = id; cl = some addr; size = 0; content = none; buf_idx = 0 }

-- The block of `n` bytes; a request for no byte succeeds without one.
alloc_buf : Rb → ℕ → Bool × Device → Option Rb × Device
unfolding zeros
alloc_buf rb n (true, dev) = (some (record rb { size = n; content = some (zeros n) }), dev)
alloc_buf rb n (false, dev) = (none, dev)

unfoldable pub ishtp_io_rb_alloc_buf : Rb → ℕ → Device → Option Rb × Device
unfolding alloc_buf
ishtp_io_rb_alloc_buf rb n dev = if n == 0 then (some rb, dev) else alloc_buf rb n (kmalloc dev)

-- The request block, then its buffer.
new_rb : ℕ → ℕ → Bool × Device → Option Rb × Device
unfolding ishtp_io_rb_init ishtp_io_rb_alloc_buf kmalloc
new_rb addr len (false, dev) = (none, dev)
new_rb addr len (true, dev) = ishtp_io_rb_alloc_buf (ishtp_io_rb_init dev.next_id addr) len dev

rx_failed : Sys → Device → Code × Sys
unfolding ishtp_cl_free_rx_ring
rx_failed s dev = (err enomem, record { dev = dev; cl = ishtp_cl_free_rx_ring s.cl })

-- The rounds `j` to `rx_ring_size`. A failure frees the ring.
unfoldable pub rx_ring_loop : ℕ → ℕ → Sys → Code × Sys
unfolding new_rb kmalloc rx_failed
rx_ring_loop zero len s = (ok 0, s)
rx_ring_loop (suc n) len s =
    let (o, dev) = new_rb s.cl.addr len (kmalloc s.dev) in
    elim o [
      | none ↦ rx_failed s dev
      | some rb ↦
          rx_ring_loop n len (record {
            dev = dev;
            cl = record (s.cl) { free_rb_list = s.cl.free_rb_list ++ rb ∷ [] };
          })
    ]

-- `len` is `cl->device->fw_client->props.max_msg_length`.
unfoldable pub ishtp_cl_alloc_rx_ring : Sys → ℕ → Code × Sys
unfolding rx_ring_loop
ishtp_cl_alloc_rx_ring s len = rx_ring_loop s.cl.rx_ring_size len s

tx_failed : Sys → Device → Code × Sys
unfolding ishtp_cl_free_tx_ring
tx_failed s dev = (err enomem, record { dev = dev; cl = ishtp_cl_free_tx_ring s.cl })

-- The entry and its block are two allocations.
new_tx_buf : ℕ → Bool × Device → Option TxBuf × Device
unfolding kmalloc zeros
new_tx_buf len (false, dev) = (none, dev)
new_tx_buf len (true, dev) =
    let (b, dev') = kmalloc dev in
    (
      if b then some (record { id = dev.next_id; content = some (zeros len); size = 0 }) else none,
      dev',
    )

unfoldable pub tx_ring_loop : ℕ → ℕ → Sys → Code × Sys
unfolding new_tx_buf kmalloc tx_failed
tx_ring_loop zero len s = (ok 0, s)
tx_ring_loop (suc n) len s =
    let (o, dev) = new_tx_buf len (kmalloc s.dev) in
    elim o [
      | none ↦ tx_failed s dev
      | some tx_buf ↦ tx_ring_loop n len (record {
        dev = dev;
        cl = record (s.cl) {
          tx_free_list = s.cl.tx_free_list ++ tx_buf ∷ [];
          tx_ring_free_size = s.cl.tx_ring_free_size + 1;
        };
      })
    ]

unfoldable pub ishtp_cl_alloc_tx_ring : Sys → ℕ → Code × Sys
unfolding tx_ring_loop
ishtp_cl_alloc_tx_ring s len =
    tx_ring_loop s.cl.tx_ring_size len (record s { cl = record (s.cl) { tx_ring_free_size = 0 } })

-- If the request failed, the buffer that was put at the end of the read list goes back to the free
-- list, and the error is -ENODEV.
unfoldable pub flow_control_sent : Sys → Rb → Code × Sys → Code × Sys
flow_control_sent before rb (ok n, t) = (ok 0, t)
flow_control_sent before rb (err e, t) = (
  err enodev,
  record {
    dev = record (t.dev) { read_list = before.dev.read_list };
    cl = record (t.cl) { free_rb_list = t.cl.free_rb_list ++ rb ∷ [] };
  },
)

-- The first free buffer becomes the last of the device's read list, and a credit is sent.
unfoldable pub start_read : Sys → Rb → List Rb → Code × Sys
unfolding flow_control_sent
start_read s rb rest =
    let fresh = record rb { cl = some s.cl.addr; buf_idx = 0 } in
    flow_control_sent s fresh (
      ishtp_hbm_cl_flow_control_req (record {
        dev = record (s.dev) { read_list = s.dev.read_list ++ fresh ∷ [] };
        cl = record (s.cl) { free_rb_list = rest };
      }))

unfoldable pub ishtp_cl_read_start : Sys → Code × Sys
unfolding start_read
ishtp_cl_read_start s =
    if not (is_connected s.cl.state)
    then (err enodev, s)
    else if not (is_enabled s.dev.dev_state)
    then (err enodev, s)
    else elim (ishtp_fw_cl_by_id s.dev.fw_clients s.cl.fw_client_id) [
      | none ↦ (err enodev, s)
      | some fw ↦ elim s.cl.free_rb_list [ [] ↦ (err enomem, s) | rb ∷ rest ↦ start_read s rb rest ]
    ]

-- The client of `s` is the one that `rb->cl` points to.
unfoldable pub ishtp_cl_io_rb_recycle : Sys → Rb → Code × Sys
unfolding ishtp_cl_read_start
ishtp_cl_io_rb_recycle s rb = elim rb.cl [
  | none ↦ (err efault, s)
  | some p ↦
      let t = record s { cl = record (s.cl) { free_rb_list = s.cl.free_rb_list ++ rb ∷ [] } } in
      if t.cl.out_flow_ctrl_creds == 0 then ishtp_cl_read_start t else (ok 0, t)
]

unfoldable pub ishtp_cl_tx_empty : Client → Bool
ishtp_cl_tx_empty cl = length cl.tx_list == 0

unfoldable pub ishtp_cl_rx_get_rb : Client → Option Rb × Client
ishtp_cl_rx_get_rb cl = elim cl.in_process_list [
  | [] ↦ (none, cl)
  | rb ∷ rest ↦ (some rb, record cl { in_process_list = rest })
]
