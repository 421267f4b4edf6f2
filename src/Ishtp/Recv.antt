-- ===== src/Ishtp/Recv.antt =====
-- Receiving a client message over IPC, recv_ishtp_cl_msg and ishtp_cl_read_complete of
-- src/intel-ish-hid-linux-6.5/ishtp/client.c, with _ishtp_read of ipc/ipc.c and
-- ishtp_cl_bus_rx_event of ishtp/bus.c.
pub mod Buffer
pub mod Search
pub mod Message
pub mod Safety
use ubuntu_elkhart_lake_pse.Prelude.{
  ℕ, zero, suc, ◌+◌, ◌-◌, ◌*◌, ◌/◌, Bool, true, false, not, ◌&&◌, ◌||◌, List, [], ◌∷◌, ◌++◌, Option,
  none, some, ltb, ◌==◌, if◌then◌else◌, length, take, drop, incr32, decr8,
}
use ubuntu_elkhart_lake_pse.Ishtp.Types.{
  Code, ok, err, enomem, eio, is_connected, MsgHdr, Rb, Client, ClDevice, Device, World, Sys,
}
use ubuntu_elkhart_lake_pse.Ishtp.Hbm.{ishtp_hbm_cl_flow_control_req}
use ubuntu_elkhart_lake_pse.Ishtp.Rings.{ishtp_cl_io_rb_recycle}

abbrev pub ipc_payload_size : ℕ
ipc_payload_size = 128

abbrev pub update : (ℕ → Option Client) → ℕ → Option Client → ℕ → Option Client
update heap p v q = if p == q then v else heap q

-- Back from the client and its device to the whole memory.
abbrev pub put_back : World → Sys → World
put_back w s = record w { dev = s.dev; heap = update w.heap s.cl.addr (some s.cl) }

-- `_ishtp_read` copies whole 32-bit words from the message registers.
unfoldable pub ishtp_read : List ℕ → ℕ → List ℕ
ishtp_read regs n = take (4 * ((n + 3) / 4)) regs

-- The bytes of `bytes` over those of `block` from index `i` on.
unfoldable pub overwrite : List ℕ → ℕ → List ℕ → List ℕ
overwrite block i bytes = take i block ++ (bytes ++ drop (i + length bytes) block)

-- A buffer takes a message if it belongs to the connected client that the header names.
unfoldable pub takes : MsgHdr → Client → Bool
takes hdr cl =
    (cl.host_client_id == hdr.host_addr && cl.fw_client_id == hdr.fw_addr) && is_connected cl.state

-- The search through the read list: the buffers before the hit, the hit, its client and the buffers
-- behind it; `fault` is a look at a freed client.
pub data Found : Type 0 where
  nobody fault : Found
  hit : List Rb → Rb → Client → List Rb → Found

abbrev pub push_front : Rb → Found → Found
push_front r nobody = nobody
push_front r fault = fault
push_front r (hit pre rb cl post) = hit (r ∷ pre) rb cl post

unfoldable pub look_at : MsgHdr → Rb → List Rb → Found → Option Client → Found
unfolding takes
look_at hdr rb rest further none = fault
look_at hdr rb rest further (some cl) =
    if takes hdr cl then hit [] rb cl rest else push_front rb further

unfoldable pub find_rb : (ℕ → Option Client) → MsgHdr → List Rb → Found
unfolding look_at
find_rb heap hdr [] = nobody
find_rb heap hdr (rb ∷ rest) =
    let further = find_rb heap hdr rest in
    elim rb.cl [ none ↦ push_front rb further | some p ↦ look_at hdr rb rest further (heap p) ]

-- The work of the device is scheduled if a driver has registered a callback.
unfoldable pub ishtp_cl_bus_rx_event : List ClDevice → ℕ → List ClDevice
ishtp_cl_bus_rx_event [] i = []
ishtp_cl_bus_rx_event (d ∷ ds) zero =
    (if d.event_cb then record d { event_work = true } else d) ∷ ds
ishtp_cl_bus_rx_event (d ∷ ds) (suc i) = d ∷ ishtp_cl_bus_rx_event ds i

schedule : Option ℕ → Device → Device
unfolding ishtp_cl_bus_rx_event
schedule none dev = dev
schedule (some i) dev = record dev { device_list = ishtp_cl_bus_rx_event dev.device_list i }

-- The event is raised only if the in-process list was empty.
unfoldable pub ishtp_cl_read_complete : Sys → Rb → Sys
unfolding schedule
ishtp_cl_read_complete s rb = record {
  dev = if length s.cl.in_process_list == 0 then schedule s.cl.device s.dev else s.dev;
  cl = record (s.cl) { in_process_list = s.cl.in_process_list ++ rb ∷ [] };
}

-- A free buffer is posted for the next message and the firmware gets a credit; its result is ignored.
unfoldable pub post_next : Sys → Sys
post_next s = elim s.cl.free_rb_list [
  | [] ↦ s
  | rb ∷ rest ↦
      (ishtp_hbm_cl_flow_control_req (record {
        dev = record (s.dev) {
          read_list = s.dev.read_list ++ record rb { cl = some s.cl.addr; buf_idx = 0 } ∷ [];
        };
        cl = record (s.cl) { free_rb_list = rest };
      })).1
]

-- The last fragment of a message: the buffer `rb` has left the read list.
unfoldable pub complete : Sys → Rb → Sys
unfolding post_next ishtp_cl_read_complete
complete s rb =
    let t = post_next (record s {
      cl = record (s.cl) { status = ok 0; out_flow_ctrl_creds = decr8 s.cl.out_flow_ctrl_creds };
    }) in
    ishtp_cl_read_complete
      (record t {
        cl = record (t.cl) {
          recv_msg_num_frags = incr32 t.cl.recv_msg_num_frags;
          recv_msg_cnt_ipc = incr32 t.cl.recv_msg_cnt_ipc;
        };
      })
      rb

-- A fragment that fits is copied behind what the buffer holds.
unfoldable pub accept : MsgHdr → List ℕ → List ℕ → Sys → List Rb → Rb → List Rb → Sys
unfolding complete ishtp_read overwrite
accept hdr regs block s pre rb post =
    let rb' = record rb {
      content = some (overwrite block rb.buf_idx (ishtp_read regs hdr.length));
      buf_idx = rb.buf_idx + hdr.length;
    } in
    if hdr.msg_complete
    then complete (record s { dev = record (s.dev) { read_list = pre ++ post } }) rb'
    else record {
      dev = record (s.dev) { read_list = pre ++ rb' ∷ post };
      cl = record (s.cl) { recv_msg_num_frags = incr32 s.cl.recv_msg_num_frags };
    }

abbrev fail : Code → Sys → Sys
fail status s = record s { cl = record (s.cl) { status = status } }

-- A buffer without memory is disbanded; one that is too small for the fragment is recycled.
unfoldable pub deliver : MsgHdr → List ℕ → Sys → List Rb → Rb → List Rb → Sys
unfolding accept
deliver hdr regs s pre rb post =
    let removed = record s { dev = record (s.dev) { read_list = pre ++ post } } in
    elim rb.content [
      | none ↦ fail (err enomem) removed
      | some block ↦
          if rb.size == 0
          then fail (err enomem) removed
          else if ltb rb.size (hdr.length + rb.buf_idx)
          then fail (err eio) (ishtp_cl_io_rb_recycle removed rb).1
          else accept hdr regs block s pre rb post
    ]

unfoldable pub after_search : World → MsgHdr → List ℕ → Found → Option World
unfolding deliver
after_search w hdr regs nobody = some w
after_search w hdr regs fault = none
after_search w hdr regs (hit pre rb cl post) =
    some (put_back w (deliver hdr regs (record { dev = w.dev; cl = cl }) pre rb post))

-- `regs` are the message registers. `none` is an access to freed memory. Nobody's message is read
-- and dropped.
unfoldable pub recv_ishtp_cl_msg : World → MsgHdr → List ℕ → Option World
unfolding after_search
recv_ishtp_cl_msg w hdr regs =
    if not (hdr.reserved == 0)
    then some w
    else if ltb ipc_payload_size hdr.length
    then some w
    else after_search w hdr regs (find_rb w.heap hdr w.dev.read_list)
