-- ===== src/Ishtp/Link.antt =====
-- Clients come and go, src/intel-ish-hid-linux-6.5/ishtp/client.c: allocation, linking to the bus,
-- unlinking, flushing of the posted buffers, and release.
pub mod Roundtrip
pub mod Release
use ubuntu_elkhart_lake_pse.Prelude.{
  ℕ, ◌+◌, ◌-◌, Bool, true, false, not, ◌&&◌, List, [], ◌∷◌, ◌++◌, Option, none, some, ltb, leb,
  ◌==◌, if◌then◌else◌, set,
}
use ubuntu_elkhart_lake_pse.Ishtp.Types.{
  Code, ok, err, emfile, enoent, enodev, is_enabled, cl_initializing, path_ipc, Rb, Client, Device,
  World, Sys,
}
use ubuntu_elkhart_lake_pse.Ishtp.Rings.{kmalloc}
use ubuntu_elkhart_lake_pse.Ishtp.Recv.{update}

abbrev pub ishtp_max_open_handle_count : ℕ
ishtp_max_open_handle_count = 255

abbrev pub cl_def_ring_size : ℕ
cl_def_ring_size = 2

-- All is zero but for the lists, the ring sizes and the fields of the transfer paths.
pub ishtp_cl_init : ℕ → Client
ishtp_cl_init addr = record {
  addr = addr;
  state = cl_initializing;
  status = ok 0;
  device = none;
  host_client_id = 0;
  fw_client_id = 0;
  ishtp_flow_ctrl_creds = 0;
  out_flow_ctrl_creds = 0;
  last_tx_path = path_ipc;
  last_dma_acked = true;
  last_dma_addr = none;
  last_ipc_acked = true;
  rx_ring_size = cl_def_ring_size;
  free_rb_list = [];
  in_process_list = [];
  tx_ring_size = cl_def_ring_size;
  tx_list = [];
  tx_free_list = [];
  tx_ring_free_size = cl_def_ring_size;
  tx_offs = 0;
  sending = false;
  err_send_msg = 0;
  err_send_fc = 0;
  send_msg_cnt_ipc = 0;
  send_msg_cnt_dma = 0;
  recv_msg_cnt_ipc = 0;
  recv_msg_cnt_dma = 0;
  recv_msg_num_frags = 0;
  ishtp_flow_ctrl_cnt = 0;
  out_flow_ctrl_cnt = 0;
}

new_client : World → ℕ → Bool × Device → Option ℕ × World
unfolding ishtp_cl_init
new_client w p (false, dev) = (none, record w { dev = dev })
new_client w p (true, dev) =
    (some p, record { dev = dev; heap = update w.heap p (some (ishtp_cl_init p)) })

pub ishtp_cl_allocate : World → Option ℕ × World
unfolding new_client
ishtp_cl_allocate w = new_client w w.dev.next_id (kmalloc w.dev)

-- The buffers of its rings go with the client.
pub ishtp_cl_free : World → ℕ → World
ishtp_cl_free w p = record w { heap = update w.heap p none }

-- `find_first_zero_bit`, which counts from `i`.
pub first_zero : List Bool → ℕ → Option ℕ
first_zero [] i = none
first_zero (b ∷ bs) i = let rest = first_zero bs (i + 1) in if b then rest else some i

-- The handle is counted before the state of the device is looked at.
pub link_at : Sys → ℕ → Code × Sys
link_at s id =
    let counted : Sys = record {
      dev = record (s.dev) { open_handle_count = s.dev.open_handle_count + 1 };
      cl = record (s.cl) { host_client_id = id };
    } in
    if not (is_enabled s.dev.dev_state) then (err enodev, counted) else (
      ok 0,
      record {
        dev = record (counted.dev) {
          cl_list = s.dev.cl_list ++ s.cl.addr ∷ [];
          host_clients_map = set s.dev.host_clients_map id true;
        };
        cl = record (counted.cl) { state = cl_initializing };
      },
    )

-- The map has a bit for each of the ISHTP_CLIENTS_MAX ids.
unfoldable pub ishtp_cl_link : Sys → Code × Sys
unfolding link_at first_zero
ishtp_cl_link s =
    if leb ishtp_max_open_handle_count s.dev.open_handle_count
    then (err emfile, s)
    else elim (first_zero s.dev.host_clients_map 0) [
      | none ↦ (err enoent, s)
      | some id ↦ link_at s id
    ]

keep_on : ℕ → Option (List ℕ) → Option (List ℕ)
keep_on q none = none
keep_on q (some l) = some (q ∷ l)

-- The first client of the list with this host id is taken off. `none`: a client that was looked at is
-- freed.
pub remove_client : (ℕ → Option Client) → ℕ → List ℕ → Option (List ℕ)
unfolding keep_on
remove_client heap id [] = some []
remove_client heap id (q ∷ qs) =
    let rest = remove_client heap id qs in
    elim (heap q) [
      | none ↦ none
      | some c ↦ if id == c.host_client_id then some qs else keep_on q rest
    ]

with_list : Device → Option (List ℕ) → Option Device
with_list dev none = none
with_list dev (some l) = some (record dev { cl_list = l })

pub ishtp_cl_unlink : (ℕ → Option Client) → Sys → Option Device
unfolding remove_client with_list
ishtp_cl_unlink heap s =
    let dev =
      if ltb 0 s.dev.open_handle_count
      then record (s.dev) {
        host_clients_map = set s.dev.host_clients_map s.cl.host_client_id false;
        open_handle_count = s.dev.open_handle_count - 1;
      }
      else s.dev in
    with_list dev (remove_client heap s.cl.host_client_id s.dev.cl_list)

unfoldable pub ishtp_cl_cmp_id : Client → Client → Bool
ishtp_cl_cmp_id cl1 cl2 =
    cl1.host_client_id == cl2.host_client_id && cl1.fw_client_id == cl2.fw_client_id

unfoldable pub keep_rb : Rb → Option (List Rb) → Option (List Rb)
keep_rb r none = none
keep_rb r (some l) = some (r ∷ l)

unfoldable pub same_client : Client → Option Client → Option Bool
unfolding ishtp_cl_cmp_id
same_client cl none = none
same_client cl (some c) = some (ishtp_cl_cmp_id cl c)

-- The posted buffers of clients with the ids of `cl` are freed.
unfoldable pub ishtp_read_list_flush : (ℕ → Option Client) → Client → List Rb → Option (List Rb)
unfolding keep_rb same_client
ishtp_read_list_flush heap cl [] = some []
ishtp_read_list_flush heap cl (r ∷ rs) =
    let rest = ishtp_read_list_flush heap cl rs in
    elim r.cl [
      | none ↦ keep_rb r rest
      | some q ↦ elim (same_client cl (heap q)) [
        | none ↦ none
        | some c ↦ if c then rest else keep_rb r rest
      ]
    ]
