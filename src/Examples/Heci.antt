-- ===== src/Examples/Heci.antt =====
-- The messages between a user program and the firmware, examples/heci_types.h: their structures, and their
-- bytes in memory. All structures are packed.
pub mod Layout
use ubuntu_elkhart_lake_pse.Prelude.{
  ℕ, ◌+◌, ◌*◌, ◌%◌, Bool, true, false, not, List, [], ◌∷◌, ◌++◌, ◌==◌, if◌then◌else◌, take, drop,
  get_or,
}
use ubuntu_elkhart_lake_pse.Prelude.Bytes.{le_bytes, from_le}

abbrev pub max_heci_data_len : ℕ
max_heci_data_len = 224

-- sizeof(heci_header_t) and sizeof(heci_body_t)
abbrev pub header_size : ℕ
header_size = 6

abbrev pub body_size : ℕ
body_size = 233

-- `heci_data_kind_t`, the kinds that the programs use
abbrev pub heci_data_can : ℕ
heci_data_can = 2

abbrev pub heci_data_uart : ℕ
heci_data_uart = 5

abbrev pub heci_data_pwm : ℕ
heci_data_pwm = 6

-- `heci_command_id_t`
abbrev pub heci_sys_info : ℕ
heci_sys_info = 1

abbrev pub heci_io_command : ℕ
heci_io_command = 2

abbrev pub heci_uart_command : ℕ
heci_uart_command = 3

abbrev pub heci_can_command : ℕ
heci_can_command = 4

abbrev pub heci_pwm_command : ℕ
heci_pwm_command = 5

-- `heci_header_t`
pub record Header : Type 0 where
  pub command : ℕ
  pub is_response : Bool
  pub has_next : Bool
  pub argument : ℕ
  pub status : ℕ

-- `heci_body_t`; `payload` is its array `data`.
pub record Body : Type 0 where
  pub kind : ℕ
  pub length : ℕ
  pub padding : ℕ
  pub payload : List ℕ

bool_byte : Bool → ℕ
bool_byte b = if b then 1 else 0

unfoldable pub header_bytes : Header → List ℕ
unfolding bool_byte
header_bytes h =
    h.command
    ∷ bool_byte h.is_response
    ∷ bool_byte h.has_next
    ∷ (le_bytes 2 h.argument ++ h.status ∷ [])

unfoldable pub body_bytes : Body → List ℕ
body_bytes b = b.kind ∷ (le_bytes 4 b.length ++ (le_bytes 4 b.padding ++ b.payload))

-- Six bytes seen as a header.
unfoldable pub header_of : List ℕ → Header
header_of bs = record {
  command = get_or bs 0 0;
  is_response = not (get_or bs 1 0 == 0);
  has_next = not (get_or bs 2 0 == 0);
  argument = from_le (take 2 (drop 3 bs));
  status = get_or bs 5 0;
}

unfoldable pub body_of : List ℕ → Body
body_of bs = record {
  kind = get_or bs 0 0;
  length = from_le (take 4 (drop 1 bs));
  padding = from_le (take 4 (drop 5 bs));
  payload = take max_heci_data_len (drop 9 bs);
}

-- The commands as 16-bit header arguments; a bit field keeps its low bits.
unfoldable pub can_command : ℕ → ℕ → ℕ → ℕ
can_command op dev arg = op % 8 + 8 * (dev % 8) + 64 * (arg % 1024)

unfoldable pub pwm_command : ℕ → ℕ → ℕ
pwm_command op dev = op % 256 + 256 * (dev % 256)

unfoldable pub io_command : ℕ → ℕ → ℕ → ℕ
io_command op dev num = op % 256 + 256 * (dev % 16) + 4096 * (num % 16)

unfoldable pub uart_command : ℕ → ℕ → ℕ
uart_command read_write device = read_write % 256 + 256 * (device % 256)
