-- ===== src/Tests/Link.antt =====
-- Clients that come and go.
use ubuntu_elkhart_lake_pse.Prelude.{
  ◌≡◌, refl, true, false, List, [], ◌∷◌, none, some, arith, inl, inr,
}
use ubuntu_elkhart_lake_pse.Ishtp.Types.{ok, cl_initializing, Rb, Client, Device, World, Sys}
use ubuntu_elkhart_lake_pse.Ishtp.Recv.{update}
use ubuntu_elkhart_lake_pse.Ishtp.Recv.Safety.{AllLive}
use ubuntu_elkhart_lake_pse.Ishtp.Link.{
  ishtp_cl_link, ishtp_cl_unlink, ishtp_cl_free, ishtp_read_list_flush,
}
use ubuntu_elkhart_lake_pse.Ishtp.Link.Release.{flush-free-AllLive}
use ubuntu_elkhart_lake_pse.Ishtp.Link.Roundtrip.{link-unlink}
use ubuntu_elkhart_lake_pse.Ishtp.Answers.{
  ConnectResponse, ishtp_hbm_cl_addr_equal, ishtp_hbm_cl_connect_res,
}
use ubuntu_elkhart_lake_pse.Ishtp.Answers.Effect.{IsAnswered, connect_res_lem}
use ubuntu_elkhart_lake_pse.Tests.Data.{test_rb, test_device, test_client, test_world}

abbrev two_posted : List Rb
two_posted = test_rb 20 ∷ record (test_rb 21) { cl = none } ∷ []

flush-free-AllLive_example :
    (rs' : List Rb) × (ishtp_read_list_flush test_world.heap test_client two_posted ≡ some rs')
    × AllLive (ishtp_cl_free test_world 1).heap rs'
flush-free-AllLive_example =
    flush-free-AllLive test_world 1 test_client two_posted refl
      (inr (1, test_client, refl, refl), (inl refl, tt))

abbrev newcomer : Client
newcomer = record test_client { addr = 2; host_client_id = 0 }

abbrev two_ids : Device
two_ids = record test_device { host_clients_map = true ∷ true ∷ true ∷ true ∷ false ∷ [] }

abbrev linked : Sys
linked = record {
  dev = record two_ids {
    open_handle_count = 2;
    cl_list = 1 ∷ 2 ∷ [];
    host_clients_map = true ∷ true ∷ true ∷ true ∷ true ∷ [];
  };
  cl = record newcomer { host_client_id = 4; state = cl_initializing };
}

link_ok : ishtp_cl_link (record { dev = two_ids; cl = newcomer }) ≡ (ok 0, linked)
unfolding ishtp_cl_link
link_ok = refl

link-unlink_example :
    ishtp_cl_unlink (update test_world.heap 2 (some linked.cl)) linked ≡ some two_ids
link-unlink_example =
    link-unlink test_world.heap (record { dev = two_ids; cl = newcomer }) linked 0
      ((omega arith, test_client, refl, refl), tt) link_ok

abbrev accepted : ConnectResponse
accepted = record { fw_addr = 7; host_addr = 3; status = 0 }

connect_res_lem_example :
    (w' : World) × (cl' : Client) × (ishtp_hbm_cl_connect_res test_world accepted ≡ some w')
    × (w'.heap 1 ≡ some cl')
    × IsAnswered 0 test_client cl'
    × (w'.heap 2 ≡ none)
    × (w'.dev ≡ test_world.dev)
unfolding ishtp_hbm_cl_addr_equal
connect_res_lem_example =
    connect_res_lem test_world accepted 1 2 test_client (inl (refl, refl, refl)) (omega arith)
