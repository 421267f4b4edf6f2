-- ===== src/Ishtp/Startup/Responses.antt =====
-- What the driver does on the bus messages of the start, src/intel-ish-hid-linux-6.5/ishtp/hbm.c, and on
-- the two ends of a reset, ishtp/bus.c.
use ubuntu_elkhart_lake_pse.Prelude.{
  ℕ, Bool, true, false, not, ◌&&◌, ◌||◌, List, ◌∷◌, ◌++◌, Option, none, some, ltb, ◌==◌,
  if◌then◌else◌, get_or, set, length, incr8,
}
use ubuntu_elkhart_lake_pse.Prelude.Bytes.{le_bytes}
use ubuntu_elkhart_lake_pse.Ishtp.Types.{
  Code, init_clients, resetting, disabled, is_enabled, is_init_clients, FwClient,
}
use ubuntu_elkhart_lake_pse.Ishtp.Hbm.{ishtp_hbm_hdr}
use ubuntu_elkhart_lake_pse.Ishtp.Startup.{
  hbm_start, hbm_started, hbm_client_properties, hbm_stopped, is_start, is_enum_clients,
  is_client_properties, Platform, Startup, ish_hw_reset, no_client, ishtp_bus_remove_all_clients,
}
use ubuntu_elkhart_lake_pse.Ishtp.Startup.Exchange.{
  replicate, write, reset, ishtp_hbm_start_req, ishtp_hbm_enum_clients_req,
  ishtp_hbm_fw_cl_allocate, ishtp_hbm_prop_req, ishtp_hbm_stop_req,
}

-- HOST_START_RES_CMD
unfoldable pub start_res : Platform → Bool → ℕ → ℕ → Startup → Startup
unfolding ishtp_hbm_stop_req ishtp_hbm_enum_clients_req ish_hw_reset
start_res h supported major minor s =
    if not supported
    then ishtp_hbm_stop_req
        (record s { major_version = major; minor_version = minor; hbm_state = hbm_stopped })
    else (let t = record s { major_version = 1; minor_version = 0 } in
        if is_init_clients s.dev.dev_state && is_start s.hbm_state
        then ishtp_hbm_enum_clients_req h (record t { hbm_state = hbm_started })
        else reset h t)

abbrev pub left_in : Option (Code × Startup) → Option Startup
left_in none = none
left_in (some (r, s)) = some s

abbrev pub with_map : List Bool → Startup → Startup
with_map valid_addresses s = record s { fw_clients_map = valid_addresses }

-- The table is allocated, and the first client comes next.
unfoldable pub begin_properties : Platform → Startup → Startup
unfolding ishtp_hbm_fw_cl_allocate
begin_properties h s =
    record (ishtp_hbm_fw_cl_allocate h
      (record s { fw_client_presentation_num = 0; fw_client_index = 0 })) {
        hbm_state = hbm_client_properties;
      }

-- HOST_ENUM_RES_CMD
unfoldable pub enum_res : Platform → List Bool → Startup → Option Startup
unfolding begin_properties ishtp_hbm_prop_req ish_hw_reset
enum_res h valid_addresses s =
    let t = with_map valid_addresses s in
    if not (is_init_clients s.dev.dev_state && is_enum_clients s.hbm_state)
    then some (reset h t)
    else left_in (ishtp_hbm_prop_req h (begin_properties h t))

-- Nothing is done if there is a Tx buffer. A buffer has 256 slots.
unfoldable pub ishtp_cl_alloc_dma_buf : Platform → Startup → Startup
ishtp_cl_alloc_dma_buf h s = elim s.dma_tx_buf [
  | some a ↦ s
  | none ↦ record s {
    dma_tx_buf = h.dma_tx_buf;
    dma_rx_buf = h.dma_rx_buf;
    dma_rx_buf_phys = elim h.dma_rx_buf [ none ↦ s.dma_rx_buf_phys | some a ↦ a ];
    dma_rx_buf_size = 1048576;
    dev = record (s.dev) {
      dma_tx_buf_phys = elim h.dma_tx_buf [ none ↦ s.dev.dma_tx_buf_phys | some a ↦ a ];
      dma_num_slots = 256;
      dma_tx_map = if h.dma_tx_map then some (replicate 256 false) else none;
    };
  }
]

-- DMA is offered to the firmware when the device was enabled.
unfoldable pub offer_dma : Platform → Startup → Startup
unfolding ishtp_cl_alloc_dma_buf ishtp_hbm_hdr
offer_dma h s =
    if not (is_enabled s.dev.dev_state)
    then s
    else if not h.use_dma
    then s
    else (let t = ishtp_cl_alloc_dma_buf h s in
        elim t.dma_rx_buf [
          | none ↦ t
          | some a ↦ (write t (0x11 ∷ 0 ∷ 0 ∷ 0 ∷ (le_bytes 4 1048576 ++ le_bytes 8 a))).1
        ])

abbrev pub offered : Platform → Option (Code × Startup) → Option Startup
offered h none = none
offered h (some (r, s)) = some (offer_dma h s)

-- The entry gets the properties, and the next client is the one to ask.
abbrev pub with_props : FwClient → FwClient → Startup → Startup
with_props entry props s = record s {
  dev = record (s.dev) {
    fw_clients =
        set s.dev.fw_clients s.fw_client_presentation_num
          (record props { client_id = entry.client_id });
  };
  fw_client_index = incr8 s.fw_client_index;
  fw_client_presentation_num = incr8 s.fw_client_presentation_num;
}

unfoldable pub store_props : Platform → FwClient → FwClient → Startup → Option Startup
unfolding ishtp_hbm_prop_req offer_dma
store_props h entry props s = offered h (ishtp_hbm_prop_req h (with_props entry props s))

-- HOST_CLIENT_PROPERTIES_RES_CMD; `props.client_id` is not part of the message.
unfoldable pub props_res : Platform → ℕ → ℕ → FwClient → Startup → Option Startup
unfolding store_props ish_hw_reset
props_res h address status props s =
    if not (status == 0) || length s.dev.fw_clients == 0
    then some (reset h s)
    else if not (ltb s.fw_client_presentation_num (length s.dev.fw_clients))
    then none
    else (let entry = get_or s.dev.fw_clients s.fw_client_presentation_num no_client in
        if not (entry.client_id == address)
        then some (reset h s)
        else if not (is_init_clients s.dev.dev_state) || not (is_client_properties s.hbm_state)
        then some (reset h s)
        else store_props h entry props s)

-- HOST_STOP_RES_CMD
unfoldable pub stop_res : Platform → Startup → Startup
unfolding ish_hw_reset
stop_res h s = reset h (record s { dev = record (s.dev) { dev_state = disabled } })

-- FW_STOP_REQ_CMD
unfoldable pub fw_stop_req : Startup → Startup
fw_stop_req s = record s { hbm_state = hbm_stopped }

-- DMA_BUFFER_ALLOC_RESPONSE
unfoldable pub dma_alloc_response : Startup → Startup
dma_alloc_response s = record s { host_dma_enabled = true }

-- The queue of bus messages, which is emptied, is not part of the state.
unfoldable pub ishtp_reset_handler : Startup → Option Startup
unfolding ishtp_bus_remove_all_clients
ishtp_reset_handler s =
    ishtp_bus_remove_all_clients true (record s { dev = record (s.dev) { dev_state = resetting } })

unfoldable pub ishtp_reset_compl_handler : Platform → Startup → Startup
unfolding ishtp_hbm_start_req
ishtp_reset_compl_handler h s =
    (ishtp_hbm_start_req h
      (record s { dev = record (s.dev) { dev_state = init_clients }; hbm_state = hbm_start })).1
