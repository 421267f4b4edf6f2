-- ===== src/Prelude/Bytes.antt =====
-- Numbers in memory, the lowest byte first, and strings of hexadecimal digits.
use Prim.Native.Nat.{ℕ, zero, suc, ◌+◌, ◌-◌, ◌*◌, ◌/◌, ◌%◌, ◌<◌}
use mathlib.Core.Path.{◌≡◌, refl, ap}
use mathlib.Core.List.{List, [], ◌∷◌}
use native.Mathlib.Omega.{arith}
use mathlib.Core.Bool.{Bool, true, false, ◌&&◌}
use ubuntu_elkhart_lake_pse.Prelude.Tests.{ltb, if◌then◌else◌, ◌==◌}
use ubuntu_elkhart_lake_pse.Prelude.Lists.{length}

-- `n` bytes of a number, the lowest first.
unfoldable pub le_bytes : ℕ → ℕ → List ℕ
le_bytes zero x = []
le_bytes (suc n) x = x % 256 ∷ le_bytes n (x / 256)

unfoldable pub from_le : List ℕ → ℕ
from_le [] = 0
from_le (b ∷ bs) = b + 256 * from_le bs

pub length-le_bytes : (n x : ℕ) → length (le_bytes n x) ≡ n
unfolding le_bytes
length-le_bytes zero x = refl
length-le_bytes (suc n) x = ap suc (length-le_bytes n (x / 256))

-- A number of 16, 32 or 64 bits is read as it was written.
pub from_le-le_bytes_2 : (x : ℕ) → x < 65536 → from_le (le_bytes 2 x) ≡ x
unfolding le_bytes from_le
from_le-le_bytes_2 x h = omega arith

pub from_le-le_bytes_4 : (x : ℕ) → x < 4294967296 → from_le (le_bytes 4 x) ≡ x
unfolding le_bytes from_le
from_le-le_bytes_4 x h = omega arith

-- Whether two texts are the same.
unfoldable pub same_bytes : List ℕ → List ℕ → Bool
same_bytes [] [] = true
same_bytes [] (y ∷ ys) = false
same_bytes (x ∷ xs) [] = false
same_bytes (x ∷ xs) (y ∷ ys) = x == y && same_bytes xs ys

-- `htobe32` on a little-endian machine: the bytes of the number, the highest first.
unfoldable pub be_bytes32 : ℕ → List ℕ
be_bytes32 x = x / 16777216 % 256 ∷ x / 65536 % 256 ∷ x / 256 % 256 ∷ x % 256 ∷ []

hex_digit : ℕ → ℕ
hex_digit d = if ltb d 10 then b'0' + d else b'A' + d - 10

-- `sprintf("%02X")` of a byte.
unfoldable pub hex_byte : ℕ → List ℕ
unfolding hex_digit
hex_byte x = hex_digit (x / 16) ∷ hex_digit (x % 16) ∷ []
