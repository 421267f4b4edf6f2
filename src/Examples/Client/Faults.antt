-- ===== src/Examples/Client/Faults.antt =====
-- An error that examples/pse.c does not report.
use ubuntu_elkhart_lake_pse.Prelude.{ℕ, ◌≡◌, ◌≢◌, true, List, Option, some, arith, length}
use ubuntu_elkhart_lake_pse.Prelude.Int.{ℤ, pos}
use ubuntu_elkhart_lake_pse.Examples.Heci.{Body, header_of}
use ubuntu_elkhart_lake_pse.Examples.Program.{Os}
use ubuntu_elkhart_lake_pse.Examples.Client.{pse_send_command, pse_command_checked}

-- If the firmware announces a body with status 0 and the body is then read short, `pse_command_checked`
-- returns 1, as if the body was there, and the caller's memory is as it was.
pub short_body_unreported :
    {S : Type 0} (os : Os S) (fd : ℤ) (command arg : ℕ) (sent : Option Body) (before : Body)
    (s t u v : S) (hs bs : List ℕ)
    → pse_send_command os fd command arg sent s ≡ some (tt, t)
    → os.select fd t ≡ some (true, t)
    → os.read fd 6 t ≡ some (some hs, u)
    → length hs ≡ 6
    → (header_of hs).has_next ≡ true
    → (header_of hs).status ≡ 0
    → os.read fd 233 u ≡ some (some bs, v)
    → length bs ≢ 233
    → pse_command_checked os fd command arg sent (some before) s ≡ some ((pos 1, some before), v)
unfolding pse_command_checked
short_body_unreported os fd command arg sent before s t u v hs bs w e r l n z r' l' = ground arith
