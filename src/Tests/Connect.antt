-- ===== src/Tests/Connect.antt =====
-- A client that the firmware accepts, on a device that no longer has a device for it.
use ubuntu_elkhart_lake_pse.Prelude.{ℕ, ◌≡◌, refl, true, false, [], Option, none, some, ◌==◌}
use ubuntu_elkhart_lake_pse.Ishtp.Types.{ok, cl_connecting, Client, Device, World}
use ubuntu_elkhart_lake_pse.Ishtp.Ipc.{ishtp_send_msg}
use ubuntu_elkhart_lake_pse.Ishtp.Hbm.{ishtp_hbm_cl_connect_req}
use ubuntu_elkhart_lake_pse.Ishtp.Connect.{is_other_connecting, ishtp_cl_connect}
use ubuntu_elkhart_lake_pse.Ishtp.Connect.Leak.{StaysConnected, connect_leaks}
use ubuntu_elkhart_lake_pse.Tests.Data.{test_device, test_client}

abbrev no_devices : Device
no_devices = record test_device { device_list = []; cl_list = [] }

abbrev before : Client
before = record test_client { state = cl_connecting }

abbrev at_one : Client → ℕ → Option Client
at_one c p = elim (p == 1) [ true ↦ some c | false ↦ none ]

abbrev connecting : World
connecting = record { dev = no_devices; heap = at_one before }

abbrev accept : World → World
accept w = record w { heap = at_one test_client }

abbrev requested : Device
requested = (ishtp_hbm_cl_connect_req no_devices before).1

request_sent : ishtp_hbm_cl_connect_req no_devices before ≡ (ok 0, requested)
unfolding ishtp_hbm_cl_connect_req ishtp_send_msg
request_sent = refl

none_other : is_other_connecting (at_one before) 1 before [] ≡ some false
unfolding is_other_connecting
none_other = refl

connect_leaks_example : StaysConnected 1 (ishtp_cl_connect accept 1 connecting)
unfolding ishtp_hbm_cl_connect_req
connect_leaks_example =
    connect_leaks accept 1 0 connecting before test_client requested refl none_other request_sent
      refl refl refl refl
