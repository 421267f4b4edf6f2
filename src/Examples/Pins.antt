-- ===== src/Examples/Pins.antt =====
-- Digital inputs and outputs, LEDs, pulse-width modulation and the firmware's version: examples/dio.c,
-- led.c, pwm.c and version.c.
pub mod Levels
use ubuntu_elkhart_lake_pse.Prelude.{
  ℕ, zero, suc, ◌+◌, ◌-◌, ◌*◌, ◌/◌, ◌%◌, Bool, true, false, not, ◌||◌, List, [], ◌∷◌, ◌++◌, Option,
  none, some, ltb, ◌==◌, take, drop, get_or,
}
use ubuntu_elkhart_lake_pse.Prelude.Int.{
  ℤ, pos, negsuc, is_negative, is_zero, is_nonpositive, is_number,
}
use ubuntu_elkhart_lake_pse.Prelude.Bytes.{le_bytes, from_le}
use ubuntu_elkhart_lake_pse.Examples.Heci.{
  heci_data_pwm, heci_sys_info, heci_io_command, heci_pwm_command, Body, pwm_command, io_command,
}
use ubuntu_elkhart_lake_pse.Examples.Program.{
  U, Os, version_line, output_line, input_line, ◌>>=◌, ◌>>◌, pure, misuse, if◌then◌else◌, if_some,
}
use ubuntu_elkhart_lake_pse.Examples.Client.{fresh_body, pse_client_connect, pse_command_checked}
use ubuntu_elkhart_lake_pse.Examples.Can.{zeros}

-- `io_operation_t`, `io_device_t` and `pwm_operation_t`
abbrev pub io_get_info : ℕ
io_get_info = 0

abbrev pub io_output : Bool → ℕ
io_output state = elim state [ true ↦ 1 | false ↦ 2 ]

abbrev pub io_dev_led : ℕ
io_dev_led = 0

abbrev pub io_dev_do : ℕ
io_dev_do = 1

abbrev pub io_dev_di : ℕ
io_dev_di = 2

abbrev pub pwm_start_op : ℕ
pwm_start_op = 0

abbrev pub pwm_stop_op : ℕ
pwm_stop_op = 1

abbrev pub pwm_set_cycles : ℕ
pwm_set_cycles = 2

-- The LED on the board for a number.
unfoldable pub led_number : ℕ → ℕ
led_number led = elim (led / 3 == 0) [ true ↦ 3 - led % 3 | false ↦ 0 ]

-- The pulse for a period and a duty cycle in percent, in 64 bits.
unfoldable pub pulse : ℕ → ℕ → ℕ
pulse period duty = period * duty % 18446744073709551616 / 100

module _ {S : Type 0} (os : Os S) where
  unfoldable pub set_digital_output : ℤ → ℕ → Bool → U S ℤ
  set_digital_output fd pin state = do
    r ←
        pse_command_checked os fd heci_io_command (io_command (io_output state) io_dev_do pin) none
          none
    pure r.0

  unfoldable pub get_digital_input : ℤ → ℕ → U S ℤ
  get_digital_input fd pin = do
    r ←
        pse_command_checked os fd heci_io_command (io_command io_get_info io_dev_di pin) none
          (some fresh_body)
    if is_negative r.0
        then pure r.0
        else if is_zero r.0
        then pure (negsuc 0)
        else if_some r.1 (λ body. pure (pos (get_or body.payload 0 0))) misuse

  -- One round of the scan: set a pin, and read it back.
  unfoldable pub scan_pin : ℤ → ℕ → Bool → U S (Unit {0})
  unfolding set_digital_output get_digital_input
  scan_pin fd pin state = do
    set ← set_digital_output fd pin state
    if is_zero set then os.print (output_line pin state) else pure tt
    os.sleep
    val ← get_digital_input fd pin
    if is_number val 0 || is_number val 1 then os.print (input_line pin val) else pure tt
    os.sleep

  -- The rounds `i` to 16; at pin 0 the level is turned over.
  pub scan : ℕ → ℤ → ℕ → Bool → U S (Unit {0})
  unfolding scan_pin
  scan zero fd i state = pure tt
  scan (suc n) fd i state =
      let now = elim (i % 8 == 0) as (λ b. Bool) [ true ↦ not state | false ↦ state ] in
      let rest = scan n fd (i + 1) now in do scan_pin fd (i % 8) now; rest

  pub dio_main : U S ℤ
  unfolding scan
  dio_main = do
    fd ← pse_client_connect os
    if is_nonpositive fd then pure (negsuc 0) else do scan 16 fd 0 true; os.close fd; pure (pos 0)

  unfoldable pub led_control : ℤ → ℕ → Bool → U S ℤ
  unfolding led_number
  led_control fd led state = do
    r ←
        pse_command_checked os fd heci_io_command
          (io_command (io_output state) io_dev_led (led_number led)) none none
    pure r.0

  -- The rounds of blinking that are left, and the result of the last one.
  pub blink : ℕ → ℤ → Bool → ℤ → U S ℤ
  unfolding led_control
  blink zero fd state ret = pure ret
  blink (suc n) fd state ret =
      let rest = λ (r : ℤ). blink n fd (not state) r in
      do r ← led_control fd 0 state; if is_negative r then pure r else do os.sleep; rest r

  pub led_main : U S ℤ
  unfolding blink
  led_main = do
    fd ← pse_client_connect os
    if is_nonpositive fd
        then pure (negsuc 0)
        else do ret ← blink 11 fd false (pos 0); os.close fd; pure ret

  -- `heci_pwm_data_t` in the body.
  pub pwm_set_cycle : ℤ → ℕ → ℕ → ℕ → U S ℤ
  unfolding pulse
  pwm_set_cycle fd device period duty = do
    r ←
        pse_command_checked os fd heci_pwm_command (pwm_command pwm_set_cycles device)
          (some (record {
            kind = heci_data_pwm;
            length = 16;
            padding = 0;
            payload = le_bytes 8 period ++ (le_bytes 8 (pulse period duty) ++ zeros 208);
          }))
          none
    if is_negative r.0 then pure (negsuc 0) else pure (pos 0)

  pub pwm_control : ℤ → ℕ → ℕ → U S ℤ
  pwm_control fd op device = do
    r ← pse_command_checked os fd heci_pwm_command (pwm_command op device) none none
    if is_negative r.0 then pure (negsuc 0) else pure (pos 0)

  pub pwm_start : ℤ → ℕ → U S ℤ
  pwm_start fd device = pwm_control fd pwm_start_op device

  pub pwm_stop : ℤ → ℕ → U S ℤ
  pwm_stop fd device = pwm_control fd pwm_stop_op device

  pub pwm_rounds : ℕ → ℤ → ℤ → U S ℤ
  pwm_rounds zero fd ret = pure ret
  pwm_rounds (suc n) fd ret =
      let rest = λ (r : ℤ). pwm_rounds n fd r in
      do r ← pwm_start fd 0; if is_negative r then pure r else do os.sleep; rest r

  pub pwm_main : U S ℤ
  unfolding pwm_set_cycle pwm_rounds pwm_stop
  pwm_main = do
    fd ← pse_client_connect os
    if is_nonpositive fd then pure (negsuc 0) else do
      set ← pwm_set_cycle fd 0 1000 50
      if is_negative set
          then os.close fd >> pure (negsuc 0)
          else do ret ← pwm_rounds 11 fd set; ignored ← pwm_stop fd 0; os.close fd; pure ret

  unfoldable pub get_version : ℤ → U S ℤ
  get_version fd = do
    r ← pse_command_checked os fd heci_sys_info 0 none (some fresh_body)
    if is_negative r.0
        then pure r.0
        else if is_zero r.0
        then pure (negsuc 0)
        else if_some r.1
            (λ body.
              os.print (
                version_line (from_le (take 2 body.payload))
                  (from_le (take 2 (drop 2 body.payload))) (from_le (take 2 (drop 4 body.payload)))
                  (from_le (take 2 (drop 6 body.payload))))
              >> pure (pos 0))
            misuse

  pub version_main : U S ℤ
  unfolding get_version
  version_main = do
    fd ← pse_client_connect os
    if is_nonpositive fd then pure (negsuc 0) else do ret ← get_version fd; os.close fd; pure ret
