-- ===== src/Tests/Credit.antt =====
-- A message that waits for a credit.
use ubuntu_elkhart_lake_pse.Prelude.{◌≡◌, refl, [], ◌∷◌}
use ubuntu_elkhart_lake_pse.Ishtp.Types.{Sys}
use ubuntu_elkhart_lake_pse.Ishtp.Send.{ishtp_cl_send}
use ubuntu_elkhart_lake_pse.Ishtp.Credit.{receive_credit}
use ubuntu_elkhart_lake_pse.Ishtp.Credit.Commute.{send-receive_credit}
use ubuntu_elkhart_lake_pse.Tests.Data.{test_device, test_client}

abbrev no_credit : Sys
no_credit = record {
  dev = test_device;
  cl = record test_client { ishtp_flow_ctrl_creds = 0; tx_list = [] };
}

send-receive_credit_example :
    receive_credit (ishtp_cl_send no_credit (1 ∷ 2 ∷ 3 ∷ []) 3).1
    ≡ (ishtp_cl_send (receive_credit no_credit) (1 ∷ 2 ∷ 3 ∷ []) 3).1
send-receive_credit_example = send-receive_credit no_credit (1 ∷ 2 ∷ 3 ∷ []) 3 refl refl
