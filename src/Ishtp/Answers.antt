-- ===== src/Ishtp/Answers.antt =====
-- The firmware's answers to the requests of a client, src/intel-ish-hid-linux-6.5/ishtp/hbm.c: connect and
-- disconnect responses; and its request to disconnect a client. The wait queues that they wake are left out.
pub mod Effect
use ubuntu_elkhart_lake_pse.Prelude.{
  ℕ, Bool, true, false, ◌&&◌, List, [], ◌∷◌, Option, none, some, ◌==◌, if◌then◌else◌,
}
use ubuntu_elkhart_lake_pse.Ishtp.Types.{
  ok, err, enodev, cl_connected, cl_disconnected, Client, Device, World,
}
use ubuntu_elkhart_lake_pse.Ishtp.Ipc.{ishtp_write_message}
use ubuntu_elkhart_lake_pse.Ishtp.Hbm.{ishtp_hbm_hdr, ishtp_hbm_cl_hdr}
use ubuntu_elkhart_lake_pse.Ishtp.Recv.{update}

abbrev pub client_disconnect_res_cmd : ℕ
client_disconnect_res_cmd = 0x87

-- `struct hbm_client_connect_response`
pub record ConnectResponse : Type 0 where
  pub fw_addr : ℕ
  pub host_addr : ℕ
  pub status : ℕ

unfoldable pub ishtp_hbm_cl_addr_equal : Client → ConnectResponse → Bool
ishtp_hbm_cl_addr_equal cl rs = cl.host_client_id == rs.host_addr && cl.fw_client_id == rs.fw_addr

-- The walk over the client list to the first client with the addresses of the response; `none`: a
-- client that was looked at is freed. The outer `some` holds the client that was found, if any.
unfoldable pub addressee :
    (ℕ → Option Client) → ConnectResponse → List ℕ → Option (Option (ℕ × Client))
unfolding ishtp_hbm_cl_addr_equal
addressee heap rs [] = some none
addressee heap rs (q ∷ qs) =
    let rest = addressee heap rs qs in
    elim (heap q) [
      | none ↦ none
      | some c ↦ if ishtp_hbm_cl_addr_equal c rs then some (some (q, c)) else rest
    ]

unfoldable pub change_found :
    World → (Client → Client) → Option (Option (ℕ × Client)) → Option World
change_found w f none = none
change_found w f (some none) = some w
change_found w f (some (some (q, c))) = some (record w { heap = update w.heap q (some (f c)) })

abbrev pub answered : ConnectResponse → Client → Client
answered rs c =
    if rs.status == 0
    then record c { state = cl_connected; status = ok 0 }
    else record c { state = cl_disconnected; status = err enodev }

unfoldable pub ishtp_hbm_cl_connect_res : World → ConnectResponse → Option World
unfolding change_found addressee
ishtp_hbm_cl_connect_res w rs = change_found w (answered rs) (addressee w.heap rs w.dev.cl_list)

unfoldable pub only_success :
    ConnectResponse → Option (Option (ℕ × Client)) → Option (Option (ℕ × Client))
only_success rs none = none
only_success rs (some o) = some (if rs.status == 0 then o else none)

-- A response with an error status is for no client.
unfoldable pub ishtp_hbm_cl_disconnect_res : World → ConnectResponse → Option World
unfolding change_found addressee only_success
ishtp_hbm_cl_disconnect_res w rs =
    change_found w (λ c. record c { state = cl_disconnected })
      (only_success rs (addressee w.heap rs w.dev.cl_list))

-- The client that was found is told by a response; whether that can be written is ignored.
abbrev pub fw_disconnected : World → Option (Option (ℕ × Client)) → Option World
fw_disconnected w none = none
fw_disconnected w (some none) = some w
fw_disconnected w (some (some (q, c))) = some (record {
  dev =
      (ishtp_write_message w.dev (ishtp_hbm_hdr 4)
        (ishtp_hbm_cl_hdr c client_disconnect_res_cmd (0 ∷ []))).1;
  heap = update w.heap q (some (record c { state = cl_disconnected }));
})

-- The request has no status.
unfoldable pub ishtp_hbm_fw_disconnect_req : World → ConnectResponse → Option World
unfolding addressee ishtp_hbm_hdr ishtp_hbm_cl_hdr
ishtp_hbm_fw_disconnect_req w disconnect_req =
    fw_disconnected w (addressee w.heap disconnect_req w.dev.cl_list)
