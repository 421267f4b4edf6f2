-- ===== src/Ishtp/Reset/Waits.antt =====
-- How long the driver polls, src/intel-ish-hid-linux-6.5/ipc/ipc.c, `timed_wait_for_timeout`.
use ubuntu_elkhart_lake_pse.Prelude.{
  ℕ, zero, suc, ◌+◌, ◌-◌, ◌*◌, ◌%◌, ◌<◌, ◌≡◌, refl, ap, ◌∙◌, Bool, Bool-cases, true, false, ◌||◌,
  some, arith, inl, inr, ◌==◌, if◌then◌else◌,
}
use ubuntu_elkhart_lake_pse.Ishtp.Types.{Code, ok, err, ebusy}
use ubuntu_elkhart_lake_pse.Ishtp.Reset.{wait_loop, timed_wait_for_timeout}

-- Whether one of `n` polls from `i` on finds the hardware ready.
abbrev pub any_ready : ℕ → (ℕ → Bool) → ℕ → Bool
any_ready zero ready i = false
any_ready (suc n) ready i = ready i || any_ready n ready (i + 1)

abbrev pub verdict : Bool → Code
verdict b = if b then ok 0 else err ebusy

-- What one sleep that was not interrupted takes from the time.
slept :
    (timeinc rest : ℕ)
    → rest + timeinc < 4294967296
    → (rest + timeinc + 4294967296 + 0 - timeinc) % 4294967296 ≡ rest
slept timeinc rest h = omega arith

distributed : (timeinc k : ℕ) → timeinc * suc (suc k) ≡ timeinc * suc k + timeinc
distributed timeinc k = grind arith

loop_ready :
    (fuel : ℕ) (ready : ℕ → Bool) (timeinc i timeout : ℕ)
    → ready i ≡ true
    → wait_loop (suc fuel) ready (λ j. 0) timeinc i timeout ≡ some (ok 0)
unfolding wait_loop
loop_ready fuel ready timeinc i timeout e = rw (e, wait_loop) refl

loop_over :
    (fuel : ℕ) (ready : ℕ → Bool) (timeinc i : ℕ)
    → ready i ≡ false
    → timeinc < 4294967296
    → wait_loop (suc fuel) ready (λ j. 0) timeinc i timeinc ≡ some (err ebusy)
unfolding wait_loop
loop_over fuel ready timeinc i e h =
    let none_left : (timeinc + 4294967296 + 0 - timeinc) % 4294967296 ≡ 0 = omega arith in
    rw (e, wait_loop, none_left) refl

loop_on :
    (fuel : ℕ) (ready : ℕ → Bool) (timeinc i rest : ℕ)
    → ready i ≡ false
    → 0 < rest
    → rest + timeinc < 4294967296
    → wait_loop (suc fuel) ready (λ j. 0) timeinc i (rest + timeinc)
      ≡ wait_loop fuel ready (λ j. 0) timeinc (i + 1) rest
unfolding wait_loop
loop_on fuel ready timeinc i rest e p h =
    let more : (rest + timeinc + 4294967296 + 0 - timeinc) % 4294967296 == 0 ≡ false =
      rw (slept timeinc rest h) (ground arith) in
    rw (e, wait_loop, more)
      (ap (wait_loop fuel ready (λ j. 0) timeinc (i + 1)) (slept timeinc rest h))

wait_loop-polls :
    (k fuel : ℕ) (ready : ℕ → Bool) (timeinc i : ℕ)
    → 0 < timeinc
    → timeinc * suc k < 4294967296
    → k < fuel
    → wait_loop fuel ready (λ j. 0) timeinc i (timeinc * suc k)
      ≡ some (verdict (any_ready (suc k) ready i))
wait_loop-polls k zero ready timeinc i p h f = absurd (omega (arith, f))
wait_loop-polls zero (suc fuel) ready timeinc i p h f =
    let one : timeinc * 1 ≡ timeinc = omega arith in
    elim (Bool-cases (ready i)) [
      | inl e ↦ loop_ready fuel ready timeinc i (timeinc * 1) e ∙ rw e refl
      | inr e ↦
          ap (wait_loop (suc fuel) ready (λ j. 0) timeinc i) one
          ∙ loop_over fuel ready timeinc i e (omega (arith, one, h))
          ∙ rw e refl
    ]
wait_loop-polls (suc k) (suc fuel) ready timeinc i p h f =
    let split = distributed timeinc k in
    let left : timeinc * suc k + timeinc < 4294967296 = omega (arith, split, h) in
    let some_left : 0 < timeinc * suc k = grind arith in
    elim (Bool-cases (ready i)) [
      | inl e ↦ loop_ready fuel ready timeinc i (timeinc * suc (suc k)) e ∙ rw e refl
      | inr e ↦
          ap (wait_loop (suc fuel) ready (λ j. 0) timeinc i) split
          ∙ loop_on fuel ready timeinc i (timeinc * suc k) e some_left left
          ∙ wait_loop-polls k fuel ready timeinc (i + 1) p (omega (arith, left)) (omega (arith, f))
          ∙ rw e refl
    ]

-- If no sleep is interrupted and the time is a positive multiple of the slice, the wait ends after as many
-- polls as slices fit into the time, at the latest; it succeeds exactly if one of these polls, of
-- the condition that was asked for, finds the hardware ready, and gives -EBUSY otherwise. All
-- calls in the driver wait in 20 slices of 100 ms, for either condition.
pub timed_wait_polls :
    (k timeinc : ℕ) (fw_ready input_ready : ℕ → Bool)
    → 0 < timeinc
    → timeinc * suc k < 4294967296
    → (timed_wait_for_timeout (suc k) 1 fw_ready input_ready (λ j. 0) timeinc (timeinc * suc k)
        ≡ some (verdict (any_ready (suc k) fw_ready 0)))
      × (timed_wait_for_timeout (suc k) 2 fw_ready input_ready (λ j. 0) timeinc (timeinc * suc k)
          ≡ some (verdict (any_ready (suc k) input_ready 0)))
unfolding timed_wait_for_timeout
timed_wait_polls k timeinc fw_ready input_ready p h = (
  wait_loop-polls k (suc k) fw_ready timeinc 0 p h (omega arith),
  wait_loop-polls k (suc k) input_ready timeinc 0 p h (omega arith),
)

-- A sleep that a signal cuts short can leave less time than a slice. The next poll that fails then takes
-- the unsigned time below zero: the wait is not over but goes on with 2^32 ms less a slice at least,
-- some 49 days.
pub interrupted_wait_overruns :
    (fuel : ℕ) (ready : ℕ → Bool) (left : ℕ → ℕ) (timeinc i timeout : ℕ)
    → ready i ≡ false
    → left i ≡ 0
    → 0 < timeout
    → timeout < timeinc
    → timeinc < 4294967296
    → wait_loop (suc fuel) ready left timeinc i timeout
      ≡ wait_loop fuel ready left timeinc (i + 1) (timeout + 4294967296 - timeinc)
unfolding wait_loop
interrupted_wait_overruns fuel ready left timeinc i timeout e l p h b =
    let wrapped : (timeout + 4294967296 + left i - timeinc) % 4294967296
        ≡ timeout + 4294967296 - timeinc =
      omega (arith, l) in
    let more : (timeout + 4294967296 + left i - timeinc) % 4294967296 == 0 ≡ false =
      rw wrapped (ground arith) in
    rw (e, wait_loop, more) (ap (wait_loop fuel ready left timeinc (i + 1)) wrapped)
