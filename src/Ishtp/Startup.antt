-- ===== src/Ishtp/Startup.antt =====
-- The state of the bus while it starts, src/intel-ish-hid-linux-6.5: the hardware reset of ipc/ipc.c, and of
-- ishtp/bus.c how client devices are added and removed. A `none` is a read or write outside the
-- table of the firmware's clients, or of freed memory. What the driver core and the client drivers do
-- when a device comes or goes is left out, but for its outcome.
pub mod Exchange
pub mod Responses
pub mod Addresses
pub mod Fill
pub mod Store
pub mod Past
pub mod Faults
pub mod Table
use ubuntu_elkhart_lake_pse.Prelude.{
  ℕ, zero, suc, ◌+◌, ◌-◌, Bool, true, false, not, ◌&&◌, List, [], ◌∷◌, ◌++◌, Option, none, some,
  ◌==◌, if◌then◌else◌, get_or,
}
use ubuntu_elkhart_lake_pse.Prelude.Bytes.{same_bytes}
use ubuntu_elkhart_lake_pse.Ishtp.Types.{
  Code, ok, err, ebusy, einval, enodev, enoent, enomem, resetting, cl_disconnected, Client,
  ClDevice, Device, FwClient, World,
}
use ubuntu_elkhart_lake_pse.Ishtp.Rings.{kmalloc, ishtp_cl_free_rx_ring, ishtp_cl_free_tx_ring}
use ubuntu_elkhart_lake_pse.Ishtp.Recv.{update}
use ubuntu_elkhart_lake_pse.Ishtp.Link.{ishtp_read_list_flush}

-- `enum ishtp_hbm_state`
pub data HbmState : Type 0 where
  hbm_idle hbm_start hbm_started hbm_enum_clients hbm_client_properties hbm_working hbm_stopped :
      HbmState

-- What the hardware, the kernel and the module's parameter answer: whether there is a PCI device, it was
-- reset, it has power management and its DMA came to rest; whether a device of a name is registered;
-- the outcome of the three allocations of DMA memory; `ishtp_use_dma`.
pub record Platform : Type 0 where
  pub pdev : Bool
  pub reset_done : Bool
  pub pm_cap : Bool
  pub dma_inactive : Bool
  pub registers : List ℕ → Bool
  pub dma_tx_buf : Option ℕ
  pub dma_tx_map : Bool
  pub dma_rx_buf : Option ℕ
  pub use_dma : Bool

-- The fields of `struct ishtp_device` that the start needs, beside those of `Device`. The table of the
-- firmware's clients is `dev.fw_clients`, empty for NULL; the DMA buffers are their addresses.
pub record Startup : Type 0 where
  pub dev : Device
  pub heap : ℕ → Option Client
  pub hbm_state : HbmState
  pub major_version : ℕ
  pub minor_version : ℕ
  pub fw_clients_map : List Bool
  pub fw_clients_num : ℕ
  pub fw_client_presentation_num : ℕ
  pub fw_client_index : ℕ
  pub host_dma_enabled : Bool
  pub dma_tx_buf : Option ℕ
  pub dma_rx_buf : Option ℕ
  pub dma_rx_buf_phys : ℕ
  pub dma_rx_buf_size : ℕ
  pub device_ready : Bool

abbrev pub is_start : HbmState → Bool
is_start hbm_start = true
is_start _ = false

abbrev pub is_enum_clients : HbmState → Bool
is_enum_clients hbm_enum_clients = true
is_enum_clients _ = false

abbrev pub is_client_properties : HbmState → Bool
is_client_properties hbm_client_properties = true
is_client_properties _ = false

abbrev pub reset_state : Platform → Device → Device
reset_state h dev = if h.reset_done then record dev { dev_state = resetting } else dev

-- `ish_wakeup` leaves its bit in the doorbell.
unfoldable pub ish_wakeup : Device → Device
ish_wakeup dev = record dev { ipc = record (dev.ipc) { host2ish_drbl = 2147483648 } }

unfoldable pub ish_hw_reset : Platform → Device → Code × Device
unfolding ish_wakeup
ish_hw_reset h dev =
    if not h.pdev
    then (err enodev, dev)
    else if not h.pm_cap
    then (err einval, reset_state h dev)
    else if not h.dma_inactive
    then (err ebusy, reset_state h dev)
    else (ok 0, ish_wakeup (reset_state h dev))

-- An entry of the table that `kcalloc` gives.
abbrev pub no_client : FwClient
no_client = record {
  client_id = 0;
  protocol_name = 0 ∷ 0 ∷ 0 ∷ 0 ∷ 0 ∷ 0 ∷ 0 ∷ 0 ∷ 0 ∷ 0 ∷ 0 ∷ 0 ∷ 0 ∷ 0 ∷ 0 ∷ 0 ∷ [];
  protocol_version = 0;
  fixed_address = 0;
  max_msg_length = 0;
}

-- The device of this name, if there is one, gets the client and loses its event callback.
unfoldable pub rebind : List ℕ → FwClient → List ClDevice → Option (List ClDevice)
rebind uuid fw [] = none
rebind uuid fw (d ∷ ds) =
    let rest = rebind uuid fw ds in
    if same_bytes uuid d.name
    then some (record d { fw_client = some fw; event_cb = false; event_work = false } ∷ ds)
    else elim rest [ none ↦ none | some l ↦ some (d ∷ l) ]

register_device : Platform → FwClient → Startup → Bool × Device → Code × Startup
register_device h fw s (false, dev) = (err enoent, record s { dev = dev })
register_device h fw s (true, dev) =
    if not (h.registers fw.protocol_name) then (err enoent, record s { dev = dev }) else (
      ok 0,
      record s {
        dev = record dev {
          device_list =
              dev.device_list
              ++ record {
                name = fw.protocol_name;
                reference_count = 0;
                fw_client = some fw;
                event_cb = false;
                event_work = false;
              }
                ∷ [];
        };
        device_ready = true;
      },
    )

unfoldable pub ishtp_bus_add_device : Platform → FwClient → Startup → Code × Startup
unfolding rebind register_device kmalloc
ishtp_bus_add_device h fw s = elim (rebind fw.protocol_name fw s.dev.device_list) [
  | some l ↦ (ok 0, record s { dev = record (s.dev) { device_list = l } })
  | none ↦ register_device h fw s (kmalloc s.dev)
]

-- After the allocation of the name.
new_client : Platform → FwClient → Startup → Bool × Device → Code × Startup
new_client h fw s (false, dev) = (err enomem, record s { dev = dev })
new_client h fw s (true, dev) = ishtp_bus_add_device h fw (record s { dev = dev })

-- The client before entry `fw_client_presentation_num`.
unfoldable pub ishtp_bus_new_client : Platform → Startup → Code × Startup
unfolding new_client ishtp_bus_add_device kmalloc
ishtp_bus_new_client h s =
    new_client h (get_or s.dev.fw_clients (s.fw_client_presentation_num - 1) no_client) s
      (kmalloc s.dev)

-- A client loses its posted buffers and its rings.
unfoldable pub disband : World → ℕ → Option World
disband w p = elim (w.heap p) [
  | none ↦ none
  | some c ↦
      let cl = record c { state = cl_disconnected } in
      elim (ishtp_read_list_flush w.heap cl w.dev.read_list) [
        | none ↦ none
        | some l ↦ some (record {
          dev = record (w.dev) { read_list = l };
          heap = update w.heap p (some (ishtp_cl_free_tx_ring (ishtp_cl_free_rx_ring cl)));
        })
      ]
]

unfoldable pub disband_all : List ℕ → World → Option World
unfolding disband
disband_all [] w = some w
disband_all (p ∷ ps) w = elim (disband w p) [ none ↦ none | some w' ↦ disband_all ps w' ]

-- On a warm reset the devices that a driver holds stay, without a client.
unfoldable pub remove_devices : Bool → List ClDevice → List ClDevice
remove_devices warm [] = []
remove_devices warm (d ∷ ds) =
    let rest = remove_devices warm ds in
    if warm && not (d.reference_count == 0) then record d { fw_client = none } ∷ rest else rest

unfoldable pub zero_map : List Bool → List Bool
zero_map [] = []
zero_map (b ∷ bs) = false ∷ zero_map bs

abbrev pub clear : Bool → Startup → World → Startup
clear warm s w = record s {
  dev = record (w.dev) {
    dma_tx_map = none;
    device_list = remove_devices warm w.dev.device_list;
    fw_clients = [];
  };
  heap = w.heap;
  dma_tx_buf = none;
  dma_rx_buf = none;
  fw_clients_map = zero_map s.fw_clients_map;
  fw_clients_num = 0;
  fw_client_presentation_num = 0;
  fw_client_index = 0;
}

unfoldable pub ishtp_bus_remove_all_clients : Bool → Startup → Option Startup
unfolding disband_all remove_devices zero_map
ishtp_bus_remove_all_clients warm s =
    elim (disband_all s.dev.cl_list (record { dev = s.dev; heap = s.heap })) [
      | none ↦ none
      | some w ↦ some (clear warm s w)
    ]
