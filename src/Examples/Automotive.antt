-- ===== src/Examples/Automotive.antt =====
-- The automotive controller behind a UART, examples/automotive.c. `sprintf` of a number and `strtoul` are
-- parameters.
pub mod Settings
use ubuntu_elkhart_lake_pse.Prelude.{
  ℕ, zero, suc, ◌+◌, ◌-◌, ◌%◌, Bool, true, false, not, ◌&&◌, List, [], ◌∷◌, ◌++◌, Option, none,
  some, ltb, ◌==◌, drop, get_or, length,
}
use ubuntu_elkhart_lake_pse.Prelude.Int.{ℤ, pos, negsuc, is_negative, is_zero, is_nonpositive}
use ubuntu_elkhart_lake_pse.Examples.Heci.{heci_data_uart, heci_uart_command, Body, uart_command}
use ubuntu_elkhart_lake_pse.Examples.Program.{
  U, Os, config_line, updated_line, controller_line, ◌>>=◌, ◌>>◌, pure, misuse, if◌then◌else◌,
  if_some,
}
use ubuntu_elkhart_lake_pse.Examples.Client.{pse_client_connect, pse_command_checked}
use ubuntu_elkhart_lake_pse.Examples.Can.{zeros}

-- `sprintf("%u")` of a number, and `strtoul(_, NULL, 10)` of the text at the start of some memory.
pub record Libc : Type 0 where
  pub decimal : ℕ → List ℕ
  pub strtoul : List ℕ → ℕ

-- `automotive_config_t`
pub data Config : Type 0 where
  ignition_sense low_power_mode shutdown_timer hard_off_timer : Config
  startup_timer shutdown_voltage low_voltage_shutdown_timer current_input_voltage : Config

-- `g_config_short_names`
pub short_name : Config → List ℕ
short_name ignition_sense = b'a' ∷ b'm' ∷ b'd' ∷ []
short_name low_power_mode = b'l' ∷ b'p' ∷ b'e' ∷ []
short_name shutdown_timer = b's' ∷ b'o' ∷ b't' ∷ []
short_name hard_off_timer = b'h' ∷ b'o' ∷ b't' ∷ []
short_name startup_timer = b's' ∷ b'u' ∷ b't' ∷ []
short_name shutdown_voltage = b's' ∷ b'd' ∷ b'v' ∷ []
short_name low_voltage_shutdown_timer = b'l' ∷ b'v' ∷ b't' ∷ []
short_name current_input_voltage = b'c' ∷ b'v' ∷ b'l' ∷ []

-- The index in the enumeration, which stands for the long name in what is printed.
pub config_index : Config → ℕ
config_index ignition_sense = 0
config_index low_power_mode = 1
config_index shutdown_timer = 2
config_index hard_off_timer = 3
config_index startup_timer = 4
config_index shutdown_voltage = 5
config_index low_voltage_shutdown_timer = 6
config_index current_input_voltage = 7

abbrev pub all_configs : List Config
all_configs =
    ignition_sense ∷ low_power_mode ∷ shutdown_timer ∷ hard_off_timer ∷ startup_timer
    ∷ shutdown_voltage ∷ low_voltage_shutdown_timer ∷ current_input_voltage ∷ []

abbrev pub amd_uart_dev : ℕ
amd_uart_dev = 4

abbrev pub uart_write : ℕ
uart_write = 1

abbrev pub uart_transfer : ℕ
uart_transfer = 2

abbrev pub amd_min_version : ℕ
amd_min_version = 123

-- "ver\r\a", "cfg get %s\r\a" and "cfg set %s %u\r"
abbrev pub amd_version_get : List ℕ
amd_version_get = b'v' ∷ b'e' ∷ b'r' ∷ 13 ∷ 7 ∷ []

unfoldable pub amd_config_get : Config → List ℕ
unfolding short_name
amd_config_get config =
    b'c' ∷ b'f' ∷ b'g' ∷ 32 ∷ b'g' ∷ b'e' ∷ b't' ∷ 32 ∷ (short_name config ++ 13 ∷ 7 ∷ [])

unfoldable pub amd_config_set : Libc → Config → ℕ → List ℕ
unfolding short_name
amd_config_set libc config value =
    b'c'
    ∷ b'f'
    ∷ b'g'
    ∷ 32
    ∷ b's'
    ∷ b'e'
    ∷ b't'
    ∷ 32
    ∷ (short_name config ++ 32 ∷ (libc.decimal value ++ 13 ∷ []))

-- The text with its final zero; the memory behind it is not initialised, and 0 here.
unfoldable pub text_body : List ℕ → Body
text_body text = record {
  kind = heci_data_uart;
  length = length text;
  padding = 0;
  payload = text ++ zeros (224 - length text);
}

module _ {S : Type 0} (os : Os S) (libc : Libc) where
  unfoldable pub exchange : ℤ → Body → U S (ℤ × Option Body)
  exchange fd body =
      pse_command_checked os fd heci_uart_command (uart_command uart_transfer amd_uart_dev)
        (some body) (some body)

  pub get_controller_version : ℤ → U S (ℤ × ℕ)
  get_controller_version fd = do
    r ← exchange fd (text_body amd_version_get)
    if is_negative r.0
        then pure (r.0, 0)
        else if is_zero r.0
        then pure (negsuc 0, 0)
        else if_some r.1 (λ body. pure (pos 0, libc.strtoul body.payload % 4294967296)) misuse

  -- The value stands behind four characters of the answer.
  unfoldable pub parse_value : Body → ℤ × ℕ
  parse_value body =
      let value = libc.strtoul (drop 4 body.payload) % 4294967296 in
      elim (value == 0 && not (get_or body.payload 4 0 == b'0')) [
        | true ↦ (negsuc 1, value)
        | false ↦ (pos 0, value)
      ]

  unfoldable pub get_configuration : ℤ → Config → U S (ℤ × ℕ)
  get_configuration fd config = do
    r ← exchange fd (text_body (amd_config_get config))
    if is_negative r.0
        then pure (r.0, 0)
        else if is_zero r.0
        then pure (negsuc 0, 0)
        else if_some r.1 (λ body. pure (parse_value body)) misuse

  unfoldable pub set_configuration : ℤ → Config → ℕ → U S ℤ
  set_configuration fd config value = do
    r ←
        pse_command_checked os fd heci_uart_command (uart_command uart_write amd_uart_dev)
          (some (text_body (amd_config_set libc config value))) none
    if is_negative r.0 then pure r.0 else os.sleep >> pure (pos 0)

  unfoldable pub set_configuration_checked : ℤ → Config → ℕ → U S ℤ
  set_configuration_checked fd config value = do
    ret ← set_configuration fd config value
    if not (is_zero ret) then pure ret else do
      r ← get_configuration fd config
      if not (is_zero r.0)
          then pure r.0
          else if not (r.1 == value)
          then pure (negsuc 0)
          else os.print (updated_line (config_index config) r.1) >> pure (pos 0)

  -- The configurations that are left, and the result so far: a failure is not forgotten.
  pub show_rest : ℤ → List Config → ℤ → U S ℤ
  show_rest fd [] ret = pure ret
  show_rest fd (c ∷ cs) ret =
      let failed = show_rest fd cs (negsuc 0) in
      let shown = show_rest fd cs ret in
      do
        r ← get_configuration fd c
        if not (is_zero r.0) then failed else os.print (config_line (config_index c) r.1) >> shown

  pub show_configuration : ℤ → U S ℤ
  unfolding show_rest
  show_configuration fd = show_rest fd all_configs (pos 0)

  pub automotive_main : U S ℤ
  unfolding get_controller_version show_configuration
  automotive_main = do
    fd ← pse_client_connect os
    if is_nonpositive fd then pure (negsuc 0) else do
      v ← get_controller_version fd
      if not (is_zero v.0) then os.close fd >> pure v.0 else do
        os.print (controller_line v.1)
        if ltb v.1 amd_min_version
            then os.close fd >> pure (negsuc 0)
            else do ret ← show_configuration fd; os.close fd; pure ret
