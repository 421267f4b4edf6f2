-- ===== src/Ishtp/Dispatch.antt =====
-- The bus messages of the firmware, src/intel-ish-hid-linux-6.5/ishtp/hbm.c: `ishtp_hbm_dispatch`, `recv_hbm` and
-- the messages of the fixed client for the state of the system; and ishtp/bus.c, `ishtp_recv`. A `none` is
-- an access to freed memory, to memory that is not there or behind a buffer.
use ubuntu_elkhart_lake_pse.Prelude.{
  ℕ, zero, suc, ◌+◌, ◌-◌, ◌/◌, ◌%◌, Bool, true, not, ◌&&◌, ◌||◌, List, [], ◌∷◌, ◌++◌, Option, none,
  some, ltb, ◌==◌, if◌then◌else◌, get_or, take, drop, length, memcpy,
}
use ubuntu_elkhart_lake_pse.Prelude.Bytes.{le_bytes, from_le}
use ubuntu_elkhart_lake_pse.Ishtp.Types.{MsgHdr, FwClient, World}
use ubuntu_elkhart_lake_pse.Ishtp.Ipc.{ishtp_write_message}
use ubuntu_elkhart_lake_pse.Ishtp.Hbm.{client_disconnect_req_cmd, ishtp_flow_control_cmd}
use ubuntu_elkhart_lake_pse.Ishtp.Recv.{ishtp_read, recv_ishtp_cl_msg}
use ubuntu_elkhart_lake_pse.Ishtp.Answers.{
  client_disconnect_res_cmd, ConnectResponse, ishtp_hbm_cl_connect_res, ishtp_hbm_cl_disconnect_res,
  ishtp_hbm_fw_disconnect_req,
}
use ubuntu_elkhart_lake_pse.Ishtp.Credit.{receive_flow_control}
use ubuntu_elkhart_lake_pse.Ishtp.Inbox.{Inbox, queue_hbm, bh_hbm_work_fn}
use ubuntu_elkhart_lake_pse.Ishtp.Startup.{Platform, Startup}
use ubuntu_elkhart_lake_pse.Ishtp.Startup.Responses.{
  start_res, enum_res, props_res, stop_res, fw_stop_req, dma_alloc_response,
}
use ubuntu_elkhart_lake_pse.Ishtp.Transfer.{
  with_world, world_of, ishtp_hbm_dma_xfer, ishtp_hbm_dma_xfer_ack,
}

-- The commands of the firmware.
abbrev pub host_start_res_cmd : ℕ
host_start_res_cmd = 0x81

abbrev pub host_stop_res_cmd : ℕ
host_stop_res_cmd = 0x82

abbrev pub fw_stop_req_cmd : ℕ
fw_stop_req_cmd = 0x03

abbrev pub host_enum_res_cmd : ℕ
host_enum_res_cmd = 0x84

abbrev pub host_client_properties_res_cmd : ℕ
host_client_properties_res_cmd = 0x85

abbrev pub client_connect_res_cmd : ℕ
client_connect_res_cmd = 0x86

abbrev pub dma_buffer_alloc_response : ℕ
dma_buffer_alloc_response = 0x91

abbrev pub dma_xfer_cmd : ℕ
dma_xfer_cmd = 0x12

abbrev pub dma_xfer_ack_cmd : ℕ
dma_xfer_ack_cmd = 0x92

-- What the functions of this module change: the bus, the queue of its messages, `dev->ishtp_msg_hdr`,
-- the static `current_state` of hbm.c and the static `prev_sync` of ipc.c.
pub record Machine : Type 0 where
  pub bus : Startup
  pub inbox : Inbox
  pub ishtp_msg_hdr : MsgHdr
  pub current_state : ℕ
  pub prev_sync : ℕ

abbrev pub with_bus : Machine → Option Startup → Option Machine
with_bus m none = none
with_bus m (some s) = some (record m { bus = s })

abbrev pub with_clients : Machine → Option World → Option Machine
with_clients m none = none
with_clients m (some w) = some (record m { bus = with_world m.bus w })

-- A connect response; a disconnect request or a flow control message begins in the same way.
unfoldable pub connect_response : List ℕ → ConnectResponse
connect_response msg = record {
  fw_addr = get_or msg 1 0;
  host_addr = get_or msg 2 0;
  status = get_or msg 3 0;
}

-- The bits of a byte and of a map, the lowest first.
unfoldable pub bits : ℕ → ℕ → List Bool
bits zero b = []
bits (suc n) b = (b % 2 == 1) ∷ bits n (b / 2)

unfoldable pub valid_addresses : List ℕ → List Bool
unfolding bits
valid_addresses [] = []
valid_addresses (b ∷ bs) = bits 8 b ++ valid_addresses bs

-- `struct ishtp_client_properties` in a properties response.
unfoldable pub client_properties : List ℕ → FwClient
unfolding from_le
client_properties msg = record {
  client_id = 0;
  protocol_name = take 16 (drop 4 msg);
  protocol_version = get_or msg 20 0;
  fixed_address = get_or msg 22 0;
  max_msg_length = from_le (take 4 (drop 24 msg));
}

-- The DMA messages are heeded once the firmware has agreed to DMA, acknowledgements if there is a buffer.
unfoldable pub dispatch_dma : (ℕ → ℕ) → List ℕ → ℕ → Machine → Option Startup
unfolding ishtp_hbm_dma_xfer ishtp_hbm_dma_xfer_ack
dispatch_dma rx_mem msg cmd m =
    if not m.bus.host_dma_enabled
    then some m.bus
    else if cmd == dma_xfer_cmd
    then ishtp_hbm_dma_xfer m.ishtp_msg_hdr.length rx_mem msg m.bus
    else elim m.bus.dma_tx_buf [
      | none ↦ some m.bus
      | some a ↦ ishtp_hbm_dma_xfer_ack m.ishtp_msg_hdr.length msg m.bus
    ]

-- The messages of the start.
unfoldable pub dispatch_start : Platform → List ℕ → ℕ → Startup → Option Startup
unfolding start_res enum_res props_res stop_res fw_stop_req dma_alloc_response valid_addresses
    client_properties
dispatch_start h msg cmd s =
    if cmd == host_start_res_cmd
    then some (start_res h (not (get_or msg 1 0 == 0)) (get_or msg 3 0) (get_or msg 2 0) s)
    else if cmd == host_client_properties_res_cmd
    then props_res h (get_or msg 1 0) (get_or msg 2 0) (client_properties msg) s
    else if cmd == host_enum_res_cmd
    then enum_res h (valid_addresses (take 32 (drop 4 msg))) s
    else if cmd == host_stop_res_cmd
    then some (stop_res h s)
    else if cmd == fw_stop_req_cmd
    then some (fw_stop_req s)
    else if cmd == dma_buffer_alloc_response
    then some (dma_alloc_response s)
    else some s

-- `rx_mem` is what the DMA Rx buffer holds; an unknown message does nothing.
unfoldable pub ishtp_hbm_dispatch : Platform → (ℕ → ℕ) → List ℕ → Machine → Option Machine
unfolding dispatch_dma dispatch_start connect_response ishtp_hbm_cl_connect_res
    ishtp_hbm_cl_disconnect_res ishtp_hbm_fw_disconnect_req
ishtp_hbm_dispatch h rx_mem msg m =
    let cmd = get_or msg 0 0 in
    let w = world_of m.bus in
    if cmd == client_connect_res_cmd
    then with_clients m (ishtp_hbm_cl_connect_res w (connect_response msg))
    else if cmd == client_disconnect_res_cmd
    then with_clients m (ishtp_hbm_cl_disconnect_res w (connect_response msg))
    else if cmd == client_disconnect_req_cmd
    then with_clients m (ishtp_hbm_fw_disconnect_req w (connect_response msg))
    else if cmd == dma_xfer_cmd || cmd == dma_xfer_ack_cmd
    then with_bus m (dispatch_dma rx_mem msg cmd m)
    else with_bus m (dispatch_start h msg cmd m.bus)

-- `bh_hbm_work_fn` with its call of the dispatch.
abbrev pub dispatched : Platform → (ℕ → ℕ) → Machine → Option (List ℕ) × Inbox → Option Machine
dispatched h rx_mem m (none, i) = some (record m { inbox = i })
dispatched h rx_mem m (some msg, i) = ishtp_hbm_dispatch h rx_mem msg (record m { inbox = i })

unfoldable pub run_hbm_work : Platform → (ℕ → ℕ) → Machine → Option Machine
unfolding ishtp_hbm_dispatch bh_hbm_work_fn
run_hbm_work h rx_mem m = dispatched h rx_mem m (bh_hbm_work_fn m.inbox)

-- The message buffer on the stack, which holds `stack` before, after the words of the message were read.
unfoldable pub rd_msg_buf : List ℕ → List ℕ → ℕ → List ℕ
unfolding ishtp_read
rd_msg_buf stack regs n = memcpy stack (ishtp_read regs n) (length (ishtp_read regs n))

-- Messages that are handled in the interrupt.
abbrev pub is_quick : ℕ → Bool
is_quick cmd =
    cmd == client_connect_res_cmd
    || (cmd == client_disconnect_res_cmd
        || (cmd == client_disconnect_req_cmd || cmd == dma_xfer_cmd))

-- The rest of `recv_hbm`, from the message buffer on.
unfoldable pub handle_hbm : Platform → (ℕ → ℕ) → List ℕ → Machine → Option Machine
unfolding ishtp_hbm_dispatch connect_response receive_flow_control queue_hbm
handle_hbm h rx_mem msg m =
    let cmd = get_or msg 0 0 in
    if cmd == ishtp_flow_control_cmd
    then with_clients m (receive_flow_control (world_of m.bus) (connect_response msg))
    else if is_quick cmd
    then ishtp_hbm_dispatch h rx_mem msg m
    else some (record m { inbox = queue_hbm m.inbox (take m.ishtp_msg_hdr.length msg) })

unfoldable pub recv_hbm : Platform → (ℕ → ℕ) → List ℕ → List ℕ → Machine → Option Machine
unfolding handle_hbm rd_msg_buf
recv_hbm h rx_mem stack regs m =
    handle_hbm h rx_mem (rd_msg_buf stack regs m.ishtp_msg_hdr.length) m

-- ISHTP_SYSTEM_STATE_CLIENT_ADDR
abbrev pub system_state_client_addr : ℕ
system_state_client_addr = 13

unfoldable pub fix_cl_hdr : ℕ → ℕ → MsgHdr
fix_cl_hdr length cl_addr = record {
  fw_addr = cl_addr;
  host_addr = 0;
  length = length;
  reserved = 0;
  msg_complete = true;
}

-- A message to the fixed client; whether it could be written is ignored.
abbrev pub write_fixed : List ℕ → Machine → Machine
write_fixed msg m = record m {
  bus = record (m.bus) {
    dev = (ishtp_write_message m.bus.dev (fix_cl_hdr (length msg) system_state_client_addr) msg).1;
  };
}

-- SYSTEM_STATE_STATUS with the states of the system. Suspended and in standby are its bits 1 and 0.
abbrev pub state_status : ℕ → List ℕ
state_status state = le_bytes 4 2 ++ (le_bytes 4 0 ++ (le_bytes 4 3 ++ le_bytes 4 state))

unfoldable pub ishtp_send_suspend : Machine → Machine
unfolding fix_cl_hdr le_bytes
ishtp_send_suspend m =
    let state = m.current_state - m.current_state % 4 + 3 in
    write_fixed (state_status state) (record m { current_state = state })

unfoldable pub ishtp_send_resume : Machine → Machine
unfolding fix_cl_hdr le_bytes
ishtp_send_resume m =
    let state = m.current_state - m.current_state % 4 in
    write_fixed (state_status state) (record m { current_state = state })

unfoldable pub ishtp_query_subscribers : Machine → Machine
unfolding fix_cl_hdr le_bytes
ishtp_query_subscribers m = write_fixed (le_bytes 4 3 ++ le_bytes 4 0) m

-- SYSTEM_STATE_SUBSCRIBE is answered.
unfoldable pub recv_fixed_cl_msg : List ℕ → List ℕ → Machine → Machine
unfolding rd_msg_buf ishtp_send_resume from_le
recv_fixed_cl_msg stack regs m =
    let msg = rd_msg_buf stack regs m.ishtp_msg_hdr.length in
    if m.ishtp_msg_hdr.fw_addr == system_state_client_addr && from_le (take 4 msg) == 1
    then ishtp_send_resume m
    else m

-- The fields of the header word.
unfoldable pub msg_hdr : ℕ → MsgHdr
msg_hdr w = record {
  fw_addr = w % 256;
  host_addr = w / 256 % 256;
  length = w / 65536 % 512;
  reserved = w / 33554432 % 64;
  msg_complete = w / 2147483648 % 2 == 1;
}

-- By the addresses in the header.
unfoldable pub route : Platform → (ℕ → ℕ) → List ℕ → List ℕ → Machine → Option Machine
unfolding recv_hbm recv_fixed_cl_msg recv_ishtp_cl_msg
route h rx_mem stack regs m =
    let hdr = m.ishtp_msg_hdr in
    if hdr.host_addr == 0 && hdr.fw_addr == 0
    then recv_hbm h rx_mem stack regs m
    else if hdr.host_addr == 0
    then some (recv_fixed_cl_msg stack regs m)
    else with_clients m (recv_ishtp_cl_msg (world_of m.bus) hdr regs)

-- A message that is longer than the MTU is dropped. `sync_fw_clock` is the function of `dev->ops`.
unfoldable pub ishtp_recv :
    Platform → (Machine → Machine) → (ℕ → ℕ) → List ℕ → ℕ → List ℕ → Machine → Option Machine
unfolding route msg_hdr
ishtp_recv h sync_fw_clock rx_mem stack hdr_word regs m =
    if hdr_word == 0
    then some m
    else (let t = record (sync_fw_clock m) { ishtp_msg_hdr = msg_hdr hdr_word } in
        if ltb t.bus.dev.mtu t.ishtp_msg_hdr.length then some t else route h rx_mem stack regs t)
