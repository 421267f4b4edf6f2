-- ===== src/Examples/Can.antt =====
-- CAN frames, examples/can.c, cansend.c and candump.c. The three have the same `can_open`, `can_close`
-- and `can_send`; `can_recv` differs in what it returns on an error.
pub mod Frames
use ubuntu_elkhart_lake_pse.Prelude.{
  ℕ, zero, suc, ◌+◌, ◌-◌, ◌*◌, Bool, true, false, not, List, [], ◌∷◌, ◌++◌, Option, none, some, ltb,
  ◌==◌, take, drop, get_or,
}
use ubuntu_elkhart_lake_pse.Prelude.Int.{
  ℤ, pos, negsuc, is_negative, is_zero, is_nonpositive, is_number,
}
use ubuntu_elkhart_lake_pse.Prelude.Bytes.{le_bytes, from_le, be_bytes32, hex_byte}
use ubuntu_elkhart_lake_pse.Examples.Heci.{
  heci_data_can, heci_can_command, Body, can_command, max_heci_data_len,
}
use ubuntu_elkhart_lake_pse.Examples.Program.{
  U, Os, frame_line, ◌>>=◌, ◌>>◌, pure, misuse, if◌then◌else◌, if_some,
}
use ubuntu_elkhart_lake_pse.Examples.Client.{fresh_body, pse_client_connect, pse_command_checked}

-- `can_operation_t`
abbrev pub can_read : ℕ
can_read = 0

abbrev pub can_write : ℕ
can_write = 1

abbrev pub can_enable : ℕ
can_enable = 2

abbrev pub can_disable : ℕ
can_disable = 3

abbrev pub can_set_baudrate : ℕ
can_set_baudrate = 4

unfoldable pub zeros : ℕ → List ℕ
zeros zero = []
zeros (suc n) = 0 ∷ zeros n

-- `heci_can_data_t` in the body: 15 bytes of fields, in a structure of 16.
unfoldable pub can_body : ℕ → ℕ → ℕ → ℕ → Body
unfolding zeros
can_body id length data_0 data_1 = record {
  kind = heci_data_can;
  length = 16;
  padding = 0;
  payload =
      le_bytes 4 id
      ++ ((elim (ltb id 0x7ff) [ true ↦ 0 | false ↦ 1 ])
          ∷ 0
          ∷ length
          ∷ (be_bytes32 data_0 ++ (be_bytes32 data_1 ++ zeros 209)));
}

-- The digits that are written for `n` bytes from byte `i` of the data words on, which follow one another from
-- byte 7 of the body on. `none`: the ninth byte does not fit into the text of 18 characters.
unfoldable pub frame_digits : List ℕ → ℕ → ℕ → Option (List ℕ)
frame_digits payload zero i = some []
frame_digits payload (suc n) i =
    let rest = frame_digits payload n (i + 1) in
    elim (ltb 7 i) [
      | true ↦ none
      | false ↦ elim rest [
        | none ↦ none
        | some digits ↦ some (hex_byte (get_or payload (7 + i) 0) ++ digits)
      ]
    ]

-- The text of a frame. `none` also for a frame of no byte: nothing is written to the text, and what the
-- stack held there before is printed as a string.
unfoldable pub frame_text : List ℕ → ℕ → Option (List ℕ)
unfolding frame_digits
frame_text payload length = elim (length == 0) [
  | true ↦ none
  | false ↦ frame_digits payload length 0
]

module _ {S : Type 0} (os : Os S) where
  unfoldable pub can_close : ℤ → ℕ → U S ℤ
  can_close fd device = do
    r ← pse_command_checked os fd heci_can_command (can_command can_disable device 0) none none
    if is_negative r.0 then pure (negsuc 0) else pure (pos 0)

  unfoldable pub can_open : ℤ → ℕ → ℕ → U S ℤ
  can_open fd device baudrate = do
    r ←
        pse_command_checked os fd heci_can_command (can_command can_set_baudrate device baudrate)
          none none
    if is_negative r.0 then pure (negsuc 0) else do
      e ←
          pse_command_checked os fd heci_can_command (can_command can_enable device baudrate) none
            none
      if is_negative e.0 then pure (negsuc 0) else pure (pos 0)

  unfoldable pub can_send : ℤ → ℕ → ℕ → ℕ → ℕ → ℕ → U S ℤ
  can_send fd device id length data_0 data_1 =
      if ltb 8 length then pure (negsuc 0) else if ltb 0x1fffffff id then pure (negsuc 0) else do
        r ←
            pse_command_checked os fd heci_can_command (can_command can_write device 0)
              (some (can_body id length data_0 data_1)) none
        if is_negative r.0 then pure (negsuc 0) else pure (pos 0)

  -- A received frame is printed.
  unfoldable pub show_frame : Body → U S ℤ
  unfolding frame_text
  show_frame body =
      let length = get_or body.payload 6 0 in
      if_some (frame_text body.payload length)
        (λ text. os.print (frame_line (from_le (take 4 body.payload)) length text) >> pure (pos 0))
        misuse

  unfoldable pub can_recv : ℤ → ℕ → U S ℤ
  unfolding show_frame
  can_recv fd device = do
    r ←
        pse_command_checked os fd heci_can_command (can_command can_read device 0) none
          (some fresh_body)
    if is_negative r.0
        then pure r.0
        else if not (is_number r.0 1)
        then pure (negsuc 0)
        else if_some r.1 show_frame misuse

  -- `while ((ret = can_recv(fd, candev)) == 0)`; `none` also where the fuel runs out.
  unfoldable pub recv_loop : ℕ → ℤ → ℕ → U S ℤ
  unfolding can_recv
  recv_loop zero fd device = misuse
  recv_loop (suc fuel) fd device =
      let rest = recv_loop fuel fd device in
      do ret ← can_recv fd device; if is_zero ret then rest else pure ret

  -- `main` of can.c; then of cansend.c, without the loop.
  unfoldable pub can_main : ℕ → U S ℤ
  unfolding can_open can_send can_close recv_loop
  can_main fuel = do
    fd ← pse_client_connect os
    if is_nonpositive fd then pure (negsuc 0) else do
      opened ← can_open fd 0 1000
      if not (is_zero opened) then os.close fd >> pure (negsuc 0) else do
        sent ← can_send fd 0 0x123 8 0x11223344 0x55667788
        ret ← if is_zero sent then recv_loop fuel fd 0 else pure sent
        ignored ← can_close fd 0
        os.close fd
        pure ret

  unfoldable pub cansend_main : U S ℤ
  unfolding can_open can_send can_close
  cansend_main = do
    fd ← pse_client_connect os
    if is_nonpositive fd then pure (negsuc 0) else do
      opened ← can_open fd 0 500
      if not (is_zero opened) then os.close fd >> pure (negsuc 0) else do
        ret ← can_send fd 0 0x123 8 0x11223344 0x55667788
        ignored ← can_close fd 0
        os.close fd
        pure ret

  -- `can_recv` of candump.c ignores errors.
  unfoldable pub candump_recv : ℤ → ℕ → U S ℤ
  unfolding show_frame
  candump_recv fd device = do
    r ←
        pse_command_checked os fd heci_can_command (can_command can_read device 0) none
          (some fresh_body)
    if is_negative r.0
        then pure (pos 0)
        else if not (is_number r.0 1)
        then pure (pos 0)
        else if_some r.1 show_frame misuse

  -- `while (running)`: one more round for each element, until a signal has come.
  pub candump_loop : ℕ → ℤ → U S (Unit {0})
  unfolding candump_recv
  candump_loop zero fd = pure tt
  candump_loop (suc rounds) fd =
      let rest = candump_loop rounds fd in do ignored ← candump_recv fd 0; rest

  -- `main` of candump.c; the signal `signal_num` comes in the last of the rounds.
  pub candump_main : ℕ → ℕ → U S ℤ
  unfolding can_open can_close candump_loop
  candump_main rounds signal_num = do
    fd ← pse_client_connect os
    if is_nonpositive fd then pure (negsuc 0) else do
      opened ← can_open fd 0 1000
      if not (is_zero opened) then os.close fd >> pure (negsuc 0) else do
        candump_loop rounds fd
        ignored ← can_close fd 0
        os.close fd
        if not (signal_num == 0) then pure (pos (128 + signal_num)) else pure (pos 0)
