-- ===== src/Examples/Program.antt =====
-- A user program: it calls the operating system and prints. What it says of errors is left out.
use ubuntu_elkhart_lake_pse.Prelude.{ℕ, Bool, true, false, List, Option, none, some}
use ubuntu_elkhart_lake_pse.Prelude.Int.{ℤ}

-- `none`: the program does not go on, because a call never returns or memory is misused.
abbrev pub U : Type 0 → Type 0 → Type 0
U S A = S → Option (A × S)

-- What the programs print on success.
pub data Output : Type 0 where
  frame_line : ℕ → ℕ → List ℕ → Output
  version_line : ℕ → ℕ → ℕ → ℕ → Output
  output_line : ℕ → Bool → Output
  input_line : ℕ → ℤ → Output
  config_line : ℕ → ℕ → Output
  updated_line : ℕ → ℕ → Output
  controller_line : ℕ → Output

-- The system calls, over the state `S` of the rest of the world. `ioctl` is the connection request with
-- the UUID of the firmware client; `read` returns the bytes that were read, or `none` for -1; `select`
-- tells whether the file can be read.
pub record Os (S : Type 0) : Type 0 where
  pub open_pse : U S ℤ
  pub ioctl : ℤ → List ℕ → U S ℤ
  pub write : ℤ → List ℕ → U S (Unit {0})
  pub select : ℤ → U S Bool
  pub read : ℤ → ℕ → U S (Option (List ℕ))
  pub close : ℤ → U S (Unit {0})
  pub sleep : U S (Unit {0})
  pub print : Output → U S (Unit {0})

module _ {S : Type 0} where
  infixl 5 ◌>>=◌ ◌>>◌
  abbrev pub ◌>>=◌ : {A B : Type 0} → U S A → (A → U S B) → U S B
  ◌>>=◌ m f s = elim (m s) [ none ↦ none | some (a, s') ↦ f a s' ]

  abbrev pub ◌>>◌ : {B : Type 0} → U S (Unit {0}) → U S B → U S B
  m >> k = m >>= λ _. k

  abbrev pub pure : {A : Type 0} → A → U S A
  pure a s = some (a, s)

  abbrev pub misuse : {A : Type 0} → U S A
  misuse s = none

  infix 1 if◌then◌else◌
  abbrev pub if◌then◌else◌ : {A : Type 0} → Bool → U S A → U S A → U S A
  if◌then◌else◌ c m k s = elim c [ true ↦ m s | false ↦ k s ]

  abbrev pub if_some : {A B : Type 0} → Option A → (A → U S B) → U S B → U S B
  if_some o f m s = elim o [ none ↦ m s | some a ↦ f a s ]
