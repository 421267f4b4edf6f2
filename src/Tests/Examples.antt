-- ===== src/Tests/Examples.antt =====
-- The example programs over the driver, and over a script of what their reads return.
use ubuntu_elkhart_lake_pse.Prelude.{
  ℕ, ◌+◌, ◌-◌, ◌≡◌, refl, true, List, [], ◌∷◌, ◌++◌, none, some, arith, take, get_or,
}
use ubuntu_elkhart_lake_pse.Prelude.Int.{pos}
use ubuntu_elkhart_lake_pse.Prelude.Bytes.{le_bytes, from_le, be_bytes32}
use ubuntu_elkhart_lake_pse.Ishtp.Types.{Rb}
use ubuntu_elkhart_lake_pse.Pse.Reading.{consumed}
use ubuntu_elkhart_lake_pse.Examples.Heci.{
  Header, Body, header_bytes, body_bytes, header_of, body_of, uart_command,
}
use ubuntu_elkhart_lake_pse.Examples.Program.{Os, frame_line, ◌>>◌, pure}
use ubuntu_elkhart_lake_pse.Examples.Client.{fresh_body, pse_read_response, pse_command_checked}
use ubuntu_elkhart_lake_pse.Examples.Client.Driver.{
  OpenFile, driver_os, HoldsResponse, pse_read_response_lem, dropped_body,
}
use ubuntu_elkhart_lake_pse.Examples.Can.{can_body, show_frame, zeros}
use ubuntu_elkhart_lake_pse.Examples.Can.Frames.{hex_digits, show-can_body}
use ubuntu_elkhart_lake_pse.Examples.Automotive.{
  Libc, shutdown_timer, exchange, parse_value, get_configuration, set_configuration,
  set_configuration_checked, text_body, amd_config_get, amd_config_set,
}
use ubuntu_elkhart_lake_pse.Examples.Automotive.Settings.{set_configuration_checked_lem}
use ubuntu_elkhart_lake_pse.Tests.Pse.{TestBus, good_bus, opened, connected}

abbrev answer : Header
answer = record { command = 1; is_response = true; has_next = true; argument = 258; status = 0 }

abbrev version : Body
version = record {
  kind = 1;
  length = 8;
  padding = 0;
  payload = 1 ∷ 0 ∷ 2 ∷ 0 ∷ 3 ∷ 0 ∷ 4 ∷ 0 ∷ zeros 216;
}

abbrev response : Rb
response = record {
  id = 20;
  cl = some 1;
  size = 239;
  content = some (header_bytes answer ++ body_bytes version);
  buf_idx = 239;
}

abbrev responded : OpenFile TestBus
responded = record {
  driver = record { pse = record opened { rb = some response }; bus = connected };
  offset = 0;
  printed = [];
}

holds_response :
    HoldsResponse good_bus true []
      (λ w. w)
      responded
      1
      1
      response
      (header_bytes answer ++ body_bytes version)
      answer
      version
unfolding header_bytes body_bytes le_bytes zeros
holds_response = record {
  held = record {
    client = refl;
    device = refl;
    alive = refl;
    up = refl;
    connected = refl;
    unlocked = refl;
    waiting = refl;
    owner = refl;
    owned = refl;
    content = refl;
    filled = omega arith;
  };
  whole = refl;
  bytes = refl;
  unread = refl;
  more = refl;
  header_ok = record { argument = omega arith };
  body_ok = record { length_ok = omega arith; padding_ok = omega arith; payload_ok = refl };
}

pse_read_response_lem_example :
    pse_read_response (driver_os good_bus true [] (λ w. w)) (pos 3) (some fresh_body) responded
    ≡ some (
      record { length = pos 239; header = answer; body = some version },
      record responded { driver = consumed good_bus responded.driver response; offset = 0 },
    )
pse_read_response_lem_example =
    pse_read_response_lem good_bus true [] (λ w. w) (pos 3) responded 1 1 response
      (header_bytes answer ++ body_bytes version) answer version fresh_body holds_response

dropped_body_example :
    (pse_read_response (driver_os good_bus true [] (λ w. w)) (pos 3) none responded
      ≡ some (
        record { length = pos 6; header = answer; body = none },
        record responded { offset = 6 },
      ))
    × (pse_read_response
          (driver_os good_bus true [] (λ w. w))
          (pos 3)
          none
          (record responded { offset = 6 })
        ≡ some (
          record { length = pos 6; header = header_of (take 6 (body_bytes version)); body = none },
          record responded { offset = 12 },
        ))
dropped_body_example =
    dropped_body good_bus true [] (λ w. w) (pos 3) responded 1 1 response
      (header_bytes answer ++ body_bytes version) answer version holds_response

-- The state is what the next reads return.
abbrev script_os : Os (List (List ℕ))
script_os = record {
  open_pse = λ s. some (pos 3, s);
  ioctl = λ fd uuid s. some (pos 0, s);
  write = λ fd bs s. some (tt, s);
  select = λ fd s. some (true, s);
  read = λ fd n s. elim s [ [] ↦ some (none, []) | r ∷ rs ↦ some (some r, rs) ];
  close = λ fd s. some (tt, s);
  sleep = λ s. some (tt, s);
  print = λ o s. some (tt, s);
}

show-can_body_example :
    show_frame script_os (can_body 0x123 8 0x11223344 0x55667788) []
    ≡ (script_os.print (
            frame_line 0x123 8
              (hex_digits (take 8 (be_bytes32 0x11223344 ++ be_bytes32 0x55667788))))
          >> pure (pos 0))
        []
show-can_body_example =
    show-can_body script_os 0x123 8 0x11223344 0x55667788 [] (omega arith) (omega arith)
      (omega arith)

-- Numbers of one digit.
abbrev digit_libc : Libc
digit_libc = record { decimal = λ n. (48 + n) ∷ []; strtoul = λ bs. get_or bs 0 0 - 48 }

abbrev programmed : List (List ℕ)
programmed =
    (3 ∷ 1 ∷ 0 ∷ 0 ∷ 0 ∷ 0 ∷ [])
    ∷ (3 ∷ 1 ∷ 1 ∷ 0 ∷ 0 ∷ 0 ∷ [])
    ∷ (5 ∷ 5 ∷ 0 ∷ 0 ∷ 0 ∷ 0 ∷ 0 ∷ 0 ∷ 0 ∷ b's' ∷ b'o' ∷ b't' ∷ 32 ∷ b'7' ∷ zeros 219)
    ∷ []

set_seven :
    set_configuration_checked script_os digit_libc (pos 3) shutdown_timer 7 programmed
    ≡ some (pos 0, [])
unfolding set_configuration_checked get_configuration set_configuration exchange parse_value
    pse_command_checked zeros header_bytes body_bytes header_of body_of le_bytes from_le
    uart_command text_body amd_config_get amd_config_set
set_seven = refl

set_configuration_checked_lem_example :
    (u v : List (List ℕ)) × (set_configuration script_os digit_libc
        (pos 3)
        shutdown_timer
        7
        programmed
      ≡ some (pos 0, u))
    × (get_configuration script_os digit_libc (pos 3) shutdown_timer u ≡ some ((pos 0, 7), v))
set_configuration_checked_lem_example =
    set_configuration_checked_lem script_os digit_libc (pos 3) shutdown_timer 7 programmed []
      set_seven
