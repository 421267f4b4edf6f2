-- ===== src/Tests/Send.antt =====
-- Sending: a message of five bytes in fragments of two.
use ubuntu_elkhart_lake_pse.Prelude.{ℕ, ◌≡◌, refl, true, List, [], ◌∷◌, arith}
use ubuntu_elkhart_lake_pse.Ishtp.Types.{ok, err, emsgsize, enabled, MsgHdr}
use ubuntu_elkhart_lake_pse.Ishtp.Ipc.{ipc_msg, ishtp_send_msg}
use ubuntu_elkhart_lake_pse.Ishtp.Ipc.Queue.{submitted, entries, ishtp_send_msg_lem}
use ubuntu_elkhart_lake_pse.Ishtp.Send.{TxLoop, tx_loop, ishtp_cl_send, ishtp_fw_cl_by_id}
use ubuntu_elkhart_lake_pse.Ishtp.Send.Fragments.{Sent, tx_loop-Sent}
use ubuntu_elkhart_lake_pse.Ishtp.Send.Delivery.{IsReady, Delivered, ishtp_cl_send_delivers}
use ubuntu_elkhart_lake_pse.Ishtp.Send.Pool.{IsPool, ishtp_cl_send-IsPool, ishtp_cl_send_refused}
use ubuntu_elkhart_lake_pse.Tests.Data.{
  test_fw, test_buf, test_ipc, test_device, test_client, test_sys,
}

abbrev message : List ℕ
message = 11 ∷ 12 ∷ 13 ∷ 14 ∷ 15 ∷ []

abbrev block : List ℕ
block = 0 ∷ 0 ∷ 0 ∷ 0 ∷ 0 ∷ 0 ∷ []

ready : IsReady test_sys test_fw (test_buf 30) (test_buf 31 ∷ []) block
unfolding ishtp_fw_cl_by_id
ready = record {
  connected = refl;
  enabled_dev = refl;
  known = refl;
  buffer = refl;
  allocated = refl;
  large = omega arith;
  nothing_queued = refl;
  credit = refl;
  idle = refl;
  path = refl;
  acked = refl;
  mtu_pos = omega arith;
  mtu_max = omega arith;
}

ishtp_cl_send_delivers_example :
    ((ishtp_cl_send test_sys message 5).0 ≡ ok 0)
    × Delivered test_sys test_fw
        (test_buf 30)
        (test_buf 31 ∷ [])
        block
        message
        5
        (ishtp_cl_send test_sys message 5).1
ishtp_cl_send_delivers_example =
    ishtp_cl_send_delivers test_sys test_fw (test_buf 30) (test_buf 31 ∷ []) block message 5 ready
      (omega arith) (omega arith) (omega arith) (omega arith)

abbrev start : TxLoop
start = record { dev = test_device; tx_offs = 0; sending = true }

tx_loop-Sent_example : Sent 3 7 [] message start (tx_loop 6 3 7 message 5 5 start)
tx_loop-Sent_example =
    tx_loop-Sent 3 7 5 message 6 5 [] start (omega arith) (omega arith) (omega arith) (omega arith)
      (omega arith) (omega arith) (omega arith)

abbrev test_hdr : MsgHdr
test_hdr = record { fw_addr = 7; host_addr = 3; length = 2; reserved = 0; msg_complete = true }

ishtp_send_msg_lem_example :
    let (rv, q') = ishtp_send_msg enabled test_ipc test_hdr message in
    (rv ≡ ok 0) × (submitted q' ≡ ipc_msg test_hdr message ∷ []) × (entries q' ≡ 4)
ishtp_send_msg_lem_example = ishtp_send_msg_lem enabled test_ipc test_hdr message

ishtp_cl_send-IsPool_example : IsPool 2 (ishtp_cl_send test_sys message 5).1.cl
ishtp_cl_send-IsPool_example =
    ishtp_cl_send-IsPool 2 test_sys message 5 (record { counted = refl; total = refl })

too_long : (ishtp_cl_send test_sys message 9).0 ≡ err emsgsize
unfolding ishtp_cl_send ishtp_fw_cl_by_id
too_long = refl

ishtp_cl_send_refused_example :
    ((ishtp_cl_send test_sys message 9).1.dev ≡ test_device)
    × ((ishtp_cl_send test_sys message 9).1.cl ≡ record test_client {
      err_send_msg = (ishtp_cl_send test_sys message 9).1.cl.err_send_msg;
    })
ishtp_cl_send_refused_example = ishtp_cl_send_refused test_sys message 9 too_long
