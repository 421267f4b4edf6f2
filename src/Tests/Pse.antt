-- ===== src/Tests/Pse.antt =====
-- The character driver over a bus with one client, at address 1, of the PSE.
use ubuntu_elkhart_lake_pse.Prelude.{
  ℕ, ◌≤◌, ◌<◌, ◌≡◌, refl, Bool, true, false, not, List, [], ◌∷◌, ◌++◌, Option, none, some, arith,
}
use ubuntu_elkhart_lake_pse.Ishtp.Types.{
  Code, ok, enabled, ClState, cl_connected, cl_disconnected, Rb,
}
use ubuntu_elkhart_lake_pse.Pse.Types.{Bus, PseDevice, World, done, blocked, fault}
use ubuntu_elkhart_lake_pse.Pse.File.{ReadCall, ishtp_pse_write, ishtp_pse_release}
use ubuntu_elkhart_lake_pse.Pse.Ioctl.{CcData, ishtp_pse_ioctl}
use ubuntu_elkhart_lake_pse.Pse.Events.{ishtp_pse_event_cb, ishtp_cl_reset_handler}
use ubuntu_elkhart_lake_pse.Pse.Probe.{pse_smhi_guid, ishtp_pse_remove}
use ubuntu_elkhart_lake_pse.Pse.Reading.{HasMessage, consumed, read_all, read_all_lem}
use ubuntu_elkhart_lake_pse.Pse.Lock.{Frees}
use ubuntu_elkhart_lake_pse.Pse.Lock.Requests.{
  open_request, release_request, event_request, reset_work_request, short_call, read_call, run,
  run-Frees,
}
use ubuntu_elkhart_lake_pse.Pse.Faults.{reset_handler_keeps_lock, release_uses_freed}
use ubuntu_elkhart_lake_pse.Pse.Calls.{Refused, write_lem, ioctl_keeps_connection}

pub record TestBus : Type 0 where
  pub state : ClState
  pub freed : Bool
  pub received : Option Rb
  pub name : List ℕ
  pub sent : List (List ℕ)

-- The outcomes of an allocation and of linking are given.
abbrev pub test_bus : Option ℕ → Code → Bus TestBus
test_bus allocated linked = record {
  ishtp_cl_allocate = λ s. (allocated, record s { freed = false });
  ishtp_cl_link = λ p s. (linked, s);
  ishtp_cl_unlink = λ p s. s;
  ishtp_cl_flush_queues = λ p s. s;
  ishtp_cl_free = λ p s. record s { freed = true };
  kfree = λ p s. record s { freed = true };
  ishtp_cl_connect = λ p s. (ok 0, record s { state = cl_connected });
  ishtp_cl_disconnect = λ p s. (ok 0, record s { state = cl_disconnected });
  ishtp_cl_send = λ p buf n s. (ok 0, record s { sent = s.sent ++ buf ∷ [] });
  ishtp_cl_tx_empty = λ p s. true;
  ishtp_cl_rx_get_rb = λ p s. (s.received, record s { received = none });
  ishtp_cl_io_rb_recycle = λ rb s. (ok 0, s);
  ishtp_fw_cl_get_client = λ uuid s. none;
  ishtp_register_event_cb = λ s. (ok 0, s);
  ishtp_put_device = λ s. s;
  cl_state = λ p s. s.state;
  set_cl_state = λ p c s. record s { state = c };
  set_fw_client_id = λ p i s. s;
  dev_state = λ s. enabled;
  max_msg_length = λ p s. 6;
  protocol_name = λ s. s.name;
  live = λ p s. not s.freed;
  msleep = λ s. s;
}

abbrev pub good_bus : Bus TestBus
good_bus = test_bus (some 1) (ok 0)

abbrev message : Rb
message = record {
  id = 20;
  cl = some 1;
  size = 6;
  content = some (11 ∷ 12 ∷ 13 ∷ 0 ∷ 0 ∷ 0 ∷ []);
  buf_idx = 3;
}

abbrev pub closed : PseDevice
closed = record {
  cl = none;
  cl_device = true;
  ishtp_dev = true;
  lock = false;
  wait_exception = false;
  rb = none;
  work = false;
  region = false;
  cdev = false;
  cclass = false;
  node = false;
}

abbrev pub opened : PseDevice
opened = record closed { cl = some 1 }

abbrev pub connected : TestBus
connected = record {
  state = cl_connected;
  freed = false;
  received = none;
  name = pse_smhi_guid;
  sent = [];
}

abbrev with_message : World TestBus
with_message = record { pse = record opened { rb = some message }; bus = connected }

abbrev without_message : World TestBus
without_message = record { pse = opened; bus = connected }

has_message : HasMessage good_bus with_message 1 1 message (11 ∷ 12 ∷ 13 ∷ 0 ∷ 0 ∷ 0 ∷ [])
has_message = record {
  client = refl;
  device = refl;
  alive = refl;
  up = refl;
  connected = refl;
  unlocked = refl;
  waiting = refl;
  owner = refl;
  owned = refl;
  content = refl;
  filled = omega arith;
}

read_all_lem_example :
    read_all good_bus 3 2 0 with_message
    ≡ done (11 ∷ 12 ∷ 13 ∷ []) (consumed good_bus with_message message)
read_all_lem_example =
    read_all_lem good_bus with_message 1 1 message (11 ∷ 12 ∷ 13 ∷ 0 ∷ 0 ∷ 0 ∷ []) 3 2 0 has_message
      (omega arith) (omega arith) (omega arith)

abbrev test_read : ReadCall
test_read = record { nonblock = false; ubuf = true; length = 2; offset = 0; copy_ok = true }

-- An open, a read that waits for a message while the device is reset, an event and a close.
run-Frees_example : Frees (
    run good_bus
      (short_call (open_request false)
        ∷ read_call test_read (some reset_work_request ∷ some event_request ∷ none ∷ [])
        ∷ short_call release_request
        ∷ [])
      (record { pse = closed; bus = connected }))
run-Frees_example =
    run-Frees good_bus (λ s e. absurd (ground (arith, e)))
      (short_call (open_request false)
        ∷ read_call test_read (some reset_work_request ∷ some event_request ∷ none ∷ [])
        ∷ short_call release_request
        ∷ [])
      (record { pse = closed; bus = connected }) refl

abbrev no_memory : Bus TestBus
no_memory = test_bus none (ok 0)

reset_handler_keeps_lock_example :
    (w' : World TestBus) × (ishtp_cl_reset_handler no_memory without_message ≡ done tt w')
    × (ishtp_pse_event_cb no_memory w' ≡ blocked)
    × (ishtp_cl_reset_handler no_memory w' ≡ blocked)
    × (ishtp_pse_remove no_memory w' ≡ blocked)
reset_handler_keeps_lock_example =
    reset_handler_keeps_lock no_memory without_message 1 refl refl refl refl (λ s. refl)

release_uses_freed_example : ishtp_pse_release good_bus with_message ≡ fault
release_uses_freed_example =
    release_uses_freed good_bus with_message 1 message refl refl refl refl refl refl (λ s. refl)

abbrev after_write : World TestBus
after_write = record without_message { bus = record connected { sent = (1 ∷ 2 ∷ []) ∷ [] } }

written :
    ishtp_pse_write good_bus false 2 (ok 0, 1 ∷ 2 ∷ []) without_message ≡ done (ok 2) after_write
unfolding ishtp_pse_write
written = refl

write_lem_example :
    (◌≡◌ {A = ℕ} 2 2)
    × (true ≡ true)
    × (0 < 2)
    × (2 ≤ 6)
    × (enabled ≡ enabled)
    × (cl_connected ≡ cl_connected)
    × (true ≡ true)
    × (after_write.bus ≡ after_write.bus)
    × (opened ≡ opened)
write_lem_example =
    write_lem good_bus without_message after_write 1 false 2 2 (ok 0, 1 ∷ 2 ∷ []) refl written

ioctl_keeps_connection_example :
    Refused without_message (
      ishtp_pse_ioctl good_bus true true
        (ok 0, CcData.in_client_uuid pse_smhi_guid)
        without_message)
ioctl_keeps_connection_example =
    ioctl_keeps_connection good_bus without_message 1 true true
      (ok 0, CcData.in_client_uuid pse_smhi_guid) refl refl refl refl
