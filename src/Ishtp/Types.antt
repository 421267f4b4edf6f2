-- ===== src/Ishtp/Types.antt =====
-- The data of the ISHTP transport: src/intel-ish-hid-linux-6.5/ishtp/{ishtp-dev.h, client.h, hbm.h, bus.h}.
-- Locks, wait queues, log output and the time stamps of `struct ishtp_cl` are left out.
use ubuntu_elkhart_lake_pse.Prelude.{ℕ, Bool, true, false, List, Option}

-- The errors that the modelled code returns, negative in the source.
pub data Errno : Type 0 where
  eperm enoent eio enomem efault ebusy enodev einval emfile emsgsize epipe erestartsys ealready
        ebadmsg eproto enospc etimedout :
      Errno

-- An `int` that is `ok 0` or an error; an `ssize_t` that is a count or an error.
pub data Code : Type 0 where
  ok : ℕ → Code
  err : Errno → Code

-- `enum ishtp_dev_state`
pub data DevState : Type 0 where
  initializing init_clients enabled resetting disabled power_down power_up : DevState

-- `enum cl_state` of the kernel's intel-ish-client-if.h
pub data ClState : Type 0 where
  cl_initializing cl_connecting cl_connected cl_disconnecting cl_disconnected : ClState

abbrev pub is_enabled : DevState → Bool
is_enabled enabled = true
is_enabled _ = false

abbrev pub is_disabled : DevState → Bool
is_disabled disabled = true
is_disabled _ = false

abbrev pub is_init_clients : DevState → Bool
is_init_clients init_clients = true
is_init_clients _ = false

abbrev pub is_connected : ClState → Bool
is_connected cl_connected = true
is_connected _ = false

abbrev pub is_disconnected : ClState → Bool
is_disconnected cl_disconnected = true
is_disconnected _ = false

abbrev pub is_disconnecting : ClState → Bool
is_disconnecting cl_disconnecting = true
is_disconnecting _ = false

abbrev pub is_connecting : ClState → Bool
is_connecting cl_connecting = true
is_connecting _ = false

abbrev pub is_initializing : ClState → Bool
is_initializing cl_initializing = true
is_initializing _ = false

-- `struct ishtp_msg_hdr`; the bit fields are kept apart.
pub record MsgHdr : Type 0 where
  pub fw_addr : ℕ
  pub host_addr : ℕ
  pub length : ℕ
  pub reserved : ℕ
  pub msg_complete : Bool

-- What `ishtp_send_msg` packs into `ipc_msg`: the doorbell word, the ISHTP header and the payload.
pub record Frame : Type 0 where
  pub doorbell : ℕ
  pub hdr : MsgHdr
  pub payload : List ℕ

-- `struct ishtp_client_properties`, as far as the driver reads it, and `struct ishtp_fw_client`.
pub record FwClient : Type 0 where
  pub client_id : ℕ
  pub protocol_name : List ℕ
  pub protocol_version : ℕ
  pub fixed_address : ℕ
  pub max_msg_length : ℕ

-- `struct ishtp_cl_rb`: a receive buffer. `id` stands for its address; `cl` points to its client;
-- `size` and `content` are `buffer.size` and `buffer.data` (`none` for NULL).
pub record Rb : Type 0 where
  pub id : ℕ
  pub cl : Option ℕ
  pub size : ℕ
  pub content : Option (List ℕ)
  pub buf_idx : ℕ

-- `struct ishtp_cl_tx_ring`: `content` is the allocated block, `size` the length of the message.
pub record TxBuf : Type 0 where
  pub id : ℕ
  pub content : Option (List ℕ)
  pub size : ℕ

-- `last_tx_path` and `transfer_path`: CL_TX_PATH_DEFAULT, CL_TX_PATH_IPC, CL_TX_PATH_DMA.
pub data TxPath : Type 0 where
  path_default path_ipc path_dma : TxPath

abbrev pub is_path_dma : TxPath → Bool
is_path_dma path_dma = true
is_path_dma _ = false

abbrev pub is_path_ipc : TxPath → Bool
is_path_ipc path_ipc = true
is_path_ipc _ = false

abbrev pub is_path_default : TxPath → Bool
is_path_default path_default = true
is_path_default _ = false

-- `struct ishtp_cl`. `addr` stands for its address, `device` for the index of the bus device that
-- `ishtp_cl_device_bind` stores. The heads of lists come first.
pub record Client : Type 0 where
  pub addr : ℕ
  pub state : ClState
  pub status : Code
  pub device : Option ℕ
  pub host_client_id : ℕ
  pub fw_client_id : ℕ
  pub ishtp_flow_ctrl_creds : ℕ
  pub out_flow_ctrl_creds : ℕ
  pub last_tx_path : TxPath
  pub last_dma_acked : Bool
  pub last_dma_addr : Option ℕ
  pub last_ipc_acked : Bool
  pub rx_ring_size : ℕ
  pub free_rb_list : List Rb
  pub in_process_list : List Rb
  pub tx_ring_size : ℕ
  pub tx_list : List TxBuf
  pub tx_free_list : List TxBuf
  pub tx_ring_free_size : ℕ
  pub tx_offs : ℕ
  pub sending : Bool
  pub err_send_msg : ℕ
  pub err_send_fc : ℕ
  pub send_msg_cnt_ipc : ℕ
  pub send_msg_cnt_dma : ℕ
  pub recv_msg_cnt_ipc : ℕ
  pub recv_msg_cnt_dma : ℕ
  pub recv_msg_num_frags : ℕ
  pub ishtp_flow_ctrl_cnt : ℕ
  pub out_flow_ctrl_cnt : ℕ

-- `struct ishtp_cl_device`: the UUID that its name spells, the firmware client that it stands for and
-- whether a driver has registered an event callback; `event_work` tells whether its work is scheduled.
pub record ClDevice : Type 0 where
  pub name : List ℕ
  pub reference_count : ℕ
  pub fw_client : Option FwClient
  pub event_cb : Bool
  pub event_work : Bool

-- The fields of `struct ishtp_device` for the IPC transmit queue. `wr_free_list` is the number of its
-- entries, whose contents do not matter; `host2ish_drbl` is the doorbell register and `wire` the
-- messages that were written to the hardware, in order.
pub record Ipc : Type 0 where
  pub wr_processing_list : List Frame
  pub wr_free_list : ℕ
  pub host2ish_drbl : ℕ
  pub wire : List Frame
  pub ipc_tx_cnt : ℕ

-- `struct ishtp_device`. `dma_tx_mem` is the content of the DMA Tx buffer; `grants` are the outcomes of
-- the coming memory allocations and `next_id` the next address that one gives.
pub record Device : Type 0 where
  pub dev_state : DevState
  pub transfer_path : TxPath
  pub mtu : ℕ
  pub read_list : List Rb
  pub cl_list : List ℕ
  pub open_handle_count : ℕ
  pub host_clients_map : List Bool
  pub device_list : List ClDevice
  pub fw_clients : List FwClient
  pub ipc : Ipc
  pub dma_tx_mem : ℕ → ℕ
  pub dma_tx_buf_phys : ℕ
  pub dma_num_slots : ℕ
  pub dma_tx_map : Option (List Bool)
  pub grants : List Bool
  pub next_id : ℕ

-- The device and the clients in memory, by address; `none` is memory that was freed.
pub record World : Type 0 where
  pub dev : Device
  pub heap : ℕ → Option Client

-- A client and its device, the two objects that most functions of client.c change.
pub record Sys : Type 0 where
  pub dev : Device
  pub cl : Client
