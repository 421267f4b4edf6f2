-- ===== src/Tests/Data.antt =====
-- A device with one client, for the tests.
use ubuntu_elkhart_lake_pse.Prelude.{ℕ, true, false, [], ◌∷◌, Option, none, some, ◌==◌}
use ubuntu_elkhart_lake_pse.Ishtp.Types.{
  ok, enabled, cl_connected, path_default, path_ipc, FwClient, Rb, TxBuf, Client, Ipc, Device,
  World, Sys,
}

abbrev pub test_fw : FwClient
test_fw = record {
  client_id = 7;
  protocol_name = [];
  protocol_version = 1;
  fixed_address = 0;
  max_msg_length = 6;
}

abbrev pub test_buf : ℕ → TxBuf
test_buf i = record { id = i; content = some (0 ∷ 0 ∷ 0 ∷ 0 ∷ 0 ∷ 0 ∷ []); size = 0 }

abbrev pub test_rb : ℕ → Rb
test_rb i = record {
  id = i;
  cl = some 1;
  size = 6;
  content = some (0 ∷ 0 ∷ 0 ∷ 0 ∷ 0 ∷ 0 ∷ []);
  buf_idx = 0;
}

abbrev pub test_ipc : Ipc
test_ipc = record {
  wr_processing_list = [];
  wr_free_list = 4;
  host2ish_drbl = 0;
  wire = [];
  ipc_tx_cnt = 0;
}

abbrev pub test_device : Device
test_device = record {
  dev_state = enabled;
  transfer_path = path_default;
  mtu = 2;
  read_list = test_rb 20 ∷ [];
  cl_list = 1 ∷ [];
  open_handle_count = 1;
  host_clients_map = true ∷ [];
  device_list =
      record {
        name = [];
        reference_count = 0;
        fw_client = some test_fw;
        event_cb = true;
        event_work = false;
      }
      ∷ [];
  fw_clients = test_fw ∷ [];
  ipc = test_ipc;
  dma_tx_mem = λ a. 0;
  dma_tx_buf_phys = 65536;
  dma_num_slots = 3;
  dma_tx_map = some (true ∷ false ∷ false ∷ []);
  grants = true ∷ true ∷ true ∷ true ∷ [];
  next_id = 100;
}

abbrev pub test_client : Client
test_client = record {
  addr = 1;
  state = cl_connected;
  status = ok 0;
  device = some 0;
  host_client_id = 3;
  fw_client_id = 7;
  ishtp_flow_ctrl_creds = 1;
  out_flow_ctrl_creds = 1;
  last_tx_path = path_ipc;
  last_dma_acked = true;
  last_dma_addr = none;
  last_ipc_acked = true;
  rx_ring_size = 2;
  free_rb_list = test_rb 21 ∷ [];
  in_process_list = [];
  tx_ring_size = 2;
  tx_list = [];
  tx_free_list = test_buf 30 ∷ test_buf 31 ∷ [];
  tx_ring_free_size = 2;
  tx_offs = 0;
  sending = false;
  err_send_msg = 0;
  err_send_fc = 0;
  send_msg_cnt_ipc = 0;
  send_msg_cnt_dma = 0;
  recv_msg_cnt_ipc = 0;
  recv_msg_cnt_dma = 0;
  recv_msg_num_frags = 0;
  ishtp_flow_ctrl_cnt = 0;
  out_flow_ctrl_cnt = 0;
}

abbrev pub test_sys : Sys
test_sys = record { dev = test_device; cl = test_client }

abbrev only : Client → ℕ → Option Client
only cl p = elim (p == 1) [ true ↦ some cl | false ↦ none ]

abbrev pub test_world : World
test_world = record { dev = test_device; heap = only test_client }
