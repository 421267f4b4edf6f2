-- ===== src/Ishtp/Hbm.antt =====
-- Requests of the host bus manager, src/intel-ish-hid-linux-6.5/ishtp/hbm.c: flow control, connect
-- and disconnect.
use ubuntu_elkhart_lake_pse.Prelude.{
  ℕ, true, List, [], ◌∷◌, ◌==◌, if◌then◌else◌, incr8, incr32, not,
}
use ubuntu_elkhart_lake_pse.Ishtp.Types.{Code, ok, err, MsgHdr, Client, Device, Sys}
use ubuntu_elkhart_lake_pse.Ishtp.Ipc.{ishtp_write_message}

abbrev pub client_connect_req_cmd : ℕ
client_connect_req_cmd = 0x06

abbrev pub client_disconnect_req_cmd : ℕ
client_disconnect_req_cmd = 0x07

abbrev pub ishtp_flow_control_cmd : ℕ
ishtp_flow_control_cmd = 0x08

unfoldable pub ishtp_hbm_hdr : ℕ → MsgHdr
ishtp_hbm_hdr length = record {
  fw_addr = 0;
  host_addr = 0;
  length = length;
  reserved = 0;
  msg_complete = true;
}

-- The command, the firmware's and the host's address; the rest of the request is zero.
unfoldable pub ishtp_hbm_cl_hdr : Client → ℕ → List ℕ → List ℕ
ishtp_hbm_cl_hdr cl hbm_cmd zeros = hbm_cmd ∷ cl.fw_client_id ∷ cl.host_client_id ∷ zeros

-- The outcome of the write is counted, and a credit recorded if it went through.
count_flow_control : Code × Device → Client → Code × Sys
count_flow_control (ok n, dev) cl = (
  ok n,
  record {
    dev = dev;
    cl = record cl {
      recv_msg_num_frags = 0;
      out_flow_ctrl_creds = incr8 cl.out_flow_ctrl_creds;
      out_flow_ctrl_cnt = incr32 cl.out_flow_ctrl_cnt;
    };
  },
)
count_flow_control (err e, dev) cl = (
  err e,
  record {
    dev = dev;
    cl = record cl { recv_msg_num_frags = 0; err_send_fc = incr32 cl.err_send_fc };
  },
)

unfoldable pub ishtp_hbm_cl_flow_control_req : Sys → Code × Sys
unfolding count_flow_control ishtp_hbm_cl_hdr ishtp_hbm_hdr
ishtp_hbm_cl_flow_control_req s =
    if not (s.cl.out_flow_ctrl_creds == 0)
    then (ok 0, s)
    else count_flow_control
        (ishtp_write_message s.dev (ishtp_hbm_hdr 8)
          (ishtp_hbm_cl_hdr s.cl ishtp_flow_control_cmd (0 ∷ 0 ∷ 0 ∷ 0 ∷ 0 ∷ [])))
        s.cl

unfoldable pub ishtp_hbm_cl_disconnect_req : Device → Client → Code × Device
unfolding ishtp_hbm_cl_hdr ishtp_hbm_hdr
ishtp_hbm_cl_disconnect_req dev cl =
    ishtp_write_message dev (ishtp_hbm_hdr 4)
      (ishtp_hbm_cl_hdr cl client_disconnect_req_cmd (0 ∷ []))

unfoldable pub ishtp_hbm_cl_connect_req : Device → Client → Code × Device
unfolding ishtp_hbm_cl_hdr ishtp_hbm_hdr
ishtp_hbm_cl_connect_req dev cl =
    ishtp_write_message dev (ishtp_hbm_hdr 4) (ishtp_hbm_cl_hdr cl client_connect_req_cmd (0 ∷ []))
