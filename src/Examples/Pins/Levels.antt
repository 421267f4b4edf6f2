-- ===== src/Examples/Pins/Levels.antt =====
-- The numbers that examples/pwm.c and led.c compute.
use ubuntu_elkhart_lake_pse.Prelude.{ℕ, ◌≤◌, ◌≡◌, arith}
use ubuntu_elkhart_lake_pse.Examples.Pins.{led_number, pulse}
use native.Mathlib.Nat.{mul-le-mul_left}

-- LEDs 0 to 3 are numbered backwards, and the map is its own inverse on them.
led_number_involutive :
    (led : ℕ) → led ≤ 3 → (led_number (led_number led) ≡ led) × (led_number led ≤ 3)
unfolding led_number
led_number_involutive led h = ground arith

-- A pulse is never longer than its period, if the duty cycle is at most 100 percent, even where the
-- product wraps around.
pub pulse-le : (period duty : ℕ) → duty ≤ 100 → pulse period duty ≤ period
unfolding pulse
pulse-le period duty h = omega (arith, mul-le-mul_left {m = duty} {n = 100} period h)
