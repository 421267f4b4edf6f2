-- ===== src/Examples/Heci/Layout.antt =====
-- Messages are read as they were written.
use ubuntu_elkhart_lake_pse.Prelude.{ℕ, ◌/◌, ◌%◌, ◌<◌, ◌≡◌, refl, arith, length, take_all}
use ubuntu_elkhart_lake_pse.Prelude.Bytes.{le_bytes, from_le, from_le-le_bytes_4}
use ubuntu_elkhart_lake_pse.Examples.Heci.{
  Header, Body, header_bytes, body_bytes, header_of, body_of, can_command,
}

-- The fields fit their widths.
pub record IsHeader (h : Header) : Type 0 where
  pub argument : h.argument < 65536

pub record IsBody (b : Body) : Type 0 where
  pub length_ok : b.length < 4294967296
  pub padding_ok : b.padding < 4294967296
  pub payload_ok : length b.payload ≡ 224

pub length-header_bytes : (h : Header) → length (header_bytes h) ≡ 6
unfolding header_bytes le_bytes
length-header_bytes h = refl

pub length-body_bytes : (b : Body) → IsBody b → length (body_bytes b) ≡ 233
unfolding body_bytes le_bytes
length-body_bytes b i = omega (arith, i.payload_ok)

pub header_of-header_bytes : (h : Header) → IsHeader h → header_of (header_bytes h) ≡ h
unfolding header_of header_bytes le_bytes from_le
header_of-header_bytes h i = ground arith

pub body_of-body_bytes : (b : Body) → IsBody b → body_of (body_bytes b) ≡ b
unfolding body_of body_bytes le_bytes
body_of-body_bytes b i = ground (
  arith,
  from_le-le_bytes_4 b.length i.length_ok,
  from_le-le_bytes_4 b.padding i.padding_ok,
  take_all 224 b.payload,
)

-- A CAN command that fits its bit fields is read back from the argument.
pub can_command_fields :
    (op dev arg : ℕ)
    → op < 8
    → dev < 8
    → arg < 1024
    → (can_command op dev arg % 8 ≡ op)
      × (can_command op dev arg / 8 % 8 ≡ dev)
      × (can_command op dev arg / 64 ≡ arg)
      × (can_command op dev arg < 65536)
unfolding can_command
can_command_fields op dev arg h k l = omega arith
