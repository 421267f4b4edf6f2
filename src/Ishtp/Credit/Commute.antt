-- ===== src/Ishtp/Credit/Commute.antt =====
-- Sending and the arrival of a credit, src/intel-ish-hid-linux-6.5/ishtp/client.c and hbm.c.
use ubuntu_elkhart_lake_pse.Prelude.{ℕ, ◌≡◌, List, [], arith}
use ubuntu_elkhart_lake_pse.Ishtp.Types.{Sys}
use ubuntu_elkhart_lake_pse.Ishtp.Send.{ishtp_cl_send}
use ubuntu_elkhart_lake_pse.Ishtp.Credit.{receive_credit}

-- For a client with no credit and nothing to send it makes no difference whether the credit of the
-- firmware comes before the call of `ishtp_cl_send` or after it: on every path, errors included, the
-- device and the client end the same.
pub send-receive_credit :
    (s : Sys) (buf : List ℕ) (n : ℕ)
    → s.cl.ishtp_flow_ctrl_creds ≡ 0
    → s.cl.tx_list ≡ []
    → receive_credit (ishtp_cl_send s buf n).1 ≡ (ishtp_cl_send (receive_credit s) buf n).1
unfolding receive_credit ishtp_cl_send
send-receive_credit s buf n e l = ground arith
