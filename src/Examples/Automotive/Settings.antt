-- ===== src/Examples/Automotive/Settings.antt =====
-- What a checked setting promises, examples/automotive.c.
use ubuntu_elkhart_lake_pse.Prelude.{ℕ, ◌≡◌, some, arith, Option-cases, inl, inr}
use ubuntu_elkhart_lake_pse.Prelude.Int.{ℤ, pos}
use ubuntu_elkhart_lake_pse.Examples.Program.{Os}
use ubuntu_elkhart_lake_pse.Examples.Automotive.{
  Libc, Config, get_configuration, set_configuration, set_configuration_checked,
}

-- If `set_configuration_checked` reports success, then the setting was programmed, and afterwards the
-- controller reported exactly the value that was set.
pub set_configuration_checked_lem :
    {S : Type 0} (os : Os S) (libc : Libc) (fd : ℤ) (config : Config) (value : ℕ) (s t : S)
    → set_configuration_checked os libc fd config value s ≡ some (pos 0, t)
    → (u v : S) × (set_configuration os libc fd config value s ≡ some (pos 0, u))
      × (get_configuration os libc fd config u ≡ some ((pos 0, value), v))
unfolding set_configuration_checked
set_configuration_checked_lem os libc fd config value s t h =
    elim (Option-cases (set_configuration os libc fd config value s)) [
      | inl e ↦ ground arith
      | inr ((ret, u), e) ↦ elim (Option-cases (get_configuration os libc fd config u)) [
        | inl e' ↦ ground arith
        | inr ((r, v), e') ↦ (u, v, ground arith, ground arith)
      ]
    ]
