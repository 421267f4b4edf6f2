-- ===== src/Ishtp/Credit.antt =====
-- A flow control message of the firmware, src/intel-ish-hid-linux-6.5/ishtp/hbm.c, `recv_hbm`.
pub mod Commute
use ubuntu_elkhart_lake_pse.Prelude.{
  ℕ, true, not, List, [], ◌∷◌, Option, none, some, ◌==◌, if◌then◌else◌, incr8, incr32,
}
use ubuntu_elkhart_lake_pse.Ishtp.Types.{Client, World, Sys}
use ubuntu_elkhart_lake_pse.Ishtp.Recv.{put_back}
use ubuntu_elkhart_lake_pse.Ishtp.Send.{ishtp_cl_send_msg}
use ubuntu_elkhart_lake_pse.Ishtp.Answers.{ConnectResponse, addressee}

abbrev pub with_credit : Sys → Sys
with_credit s = record s {
  cl = record (s.cl) {
    ishtp_flow_ctrl_creds = incr8 s.cl.ishtp_flow_ctrl_creds;
    ishtp_flow_ctrl_cnt = incr32 s.cl.ishtp_flow_ctrl_cnt;
    last_ipc_acked = true;
  };
}

-- The client gets the credit unless it has one, and sends the first message that waits.
unfoldable pub receive_credit : Sys → Sys
receive_credit s = if not (s.cl.ishtp_flow_ctrl_creds == 0) then s else elim s.cl.tx_list [
  | [] ↦ with_credit s
  | cl_msg ∷ rest ↦ ishtp_cl_send_msg (with_credit s)
]

abbrev pub credited : World → Option (Option (ℕ × Client)) → Option World
credited w none = none
credited w (some none) = some w
credited w (some (some (q, c))) =
    some (put_back w (receive_credit (record { dev = w.dev; cl = c })))

-- For the first client with the addresses of the message, which has no status. `none`: a client that was
-- looked at is freed.
unfoldable pub receive_flow_control : World → ConnectResponse → Option World
unfolding receive_credit
receive_flow_control w flow_control = credited w (addressee w.heap flow_control w.dev.cl_list)
