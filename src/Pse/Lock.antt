-- ===== src/Pse/Lock.antt =====
-- The mutex of the read buffer in src/pse.c: what a handler leaves it in.
pub mod Requests
use ubuntu_elkhart_lake_pse.Prelude.{
  ℕ, zero, suc, ◌≡◌, refl, Bool, true, false, List, [], ◌∷◌, Option, none, some, arith, Bool-cases,
  ◌⊎◌, inl, inr, Option-cases,
}
use ubuntu_elkhart_lake_pse.Ishtp.Types.{Code, ok, err, Rb, DevState, ClState}
use ubuntu_elkhart_lake_pse.Pse.Types.{
  Bus, PseDevice, World, Outcome, done, blocked, fault, M, ◌>>=◌, ◌>>◌, pure, if◌then◌else◌,
}
use ubuntu_elkhart_lake_pse.Pse.File.{
  Activity, signal, other, ReadCall, ready, wait_read, wait_sent, ishtp_pse_open, read_wait,
  ishtp_pse_read, ishtp_pse_write, ishtp_pse_release,
}
use ubuntu_elkhart_lake_pse.Pse.Ioctl.{CcData, ishtp_pse_ioctl}
use ubuntu_elkhart_lake_pse.Pse.Events.{ishtp_pse_event_cb, ishtp_cl_reset_handler}
use ubuntu_elkhart_lake_pse.Pse.Probe.{ishtp_pse_remove}

-- The handler does not wait for ever, and if it returns the mutex is free.
abbrev pub Frees : {S A : Type 0} → Outcome S A → Type 0
Frees (done a w) = w.pse.lock ≡ false
Frees blocked = ⊥
Frees fault = Unit

-- So does what another thread does while a reader waits.
abbrev pub AllFree : {S : Type 0} → List (Activity S) → Type 0
AllFree [] = Unit
AllFree {S} (signal ∷ as') = AllFree as'
AllFree {S} (other m ∷ as') = ((w : World S) → w.pse.lock ≡ false → Frees (m w)) × AllFree as'

module _ {S A : Type 0} where
  if-Frees :
      (c : Bool) (m k : M S A) (w : World S)
      → Frees (m w)
      → Frees (k w)
      → Frees ((if c then m else k) w)
  if-Frees true m k w h h' = h
  if-Frees false m k w h h' = h'

  pub then-Frees :
      (r : Outcome S (Unit {0})) (k : M S A)
      → Frees r
      → ((w : World S) → w.pse.lock ≡ false → Frees (k w))
      → Frees (elim r as (λ x. Outcome S A) [ done a w ↦ k w | blocked ↦ blocked | fault ↦ fault ])
  then-Frees (done a w) k h f = f w h
  then-Frees blocked k h f = h
  then-Frees fault k h f = tt

module _ {S : Type 0} (b : Bus S) where
  wait_read-Frees :
      (acts : List (Activity S)) (w : World S)
      → AllFree acts
      → w.pse.lock ≡ false
      → Frees (wait_read b acts w)
  unfolding wait_read
  wait_read-Frees [] w f l = l
  wait_read-Frees (signal ∷ acts) w f l = ground arith
  wait_read-Frees (other m ∷ acts) w f l =
      if-Frees (ready w.pse) (pure true) (λ w'. (m >> wait_read b acts) w') w l
        (then-Frees (m w) (wait_read b acts) (f.0 w l) (λ w' l'. wait_read-Frees acts w' f.1 l'))

  -- What waiting for the transmit queue changes is the bus.
  pub wait_sent_lem :
      (n p : ℕ) (w : World S) → (s : S) × (wait_sent b n p w ≡ done tt (record w { bus = s }))
  unfolding wait_sent
  wait_sent_lem zero p w = (w.bus, refl)
  wait_sent_lem (suc n) p w = elim (Bool-cases (b.ishtp_cl_tx_empty p w.bus)) [
    | inl e ↦ (w.bus, ground arith)
    | inr e ↦
        let slept : World S = record w { bus = b.msleep w.bus } in
        let (s, h) = wait_sent_lem n p slept in (s, ground (arith, h))
  ]

  pub open-Frees :
      (nonblock : Bool) (w : World S) → w.pse.lock ≡ false → Frees (ishtp_pse_open b nonblock w)
  unfolding ishtp_pse_open
  open-Frees nonblock w l = ground arith

  pub write-Frees :
      (nonblock : Bool) (n : ℕ) (memdup : Code × List ℕ) (w : World S)
      → w.pse.lock ≡ false
      → Frees (ishtp_pse_write b nonblock n memdup w)
  unfolding ishtp_pse_write
  write-Frees nonblock n memdup w l = ground arith

  pub release-Frees : (w : World S) → w.pse.lock ≡ false → Frees (ishtp_pse_release b w)
  unfolding ishtp_pse_release
  release-Frees w l = ground arith

  pub ioctl-Frees :
      (admin connect : Bool) (memdup : Code × CcData) (w : World S)
      → w.pse.lock ≡ false
      → Frees (ishtp_pse_ioctl b admin connect memdup w)
  unfolding ishtp_pse_ioctl
  ioctl-Frees admin connect memdup w l = ground arith

  pub event_cb-Frees : (w : World S) → w.pse.lock ≡ false → Frees (ishtp_pse_event_cb b w)
  unfolding ishtp_pse_event_cb
  event_cb-Frees w l = ground arith

  pub remove-Frees : (w : World S) → w.pse.lock ≡ false → Frees (ishtp_pse_remove b w)
  unfolding ishtp_pse_remove
  remove-Frees w l = ground arith

  pub read-Frees :
      (c : ReadCall) (acts : List (Activity S)) (w : World S)
      → AllFree acts
      → w.pse.lock ≡ false
      → Frees (ishtp_pse_read b c acts w)
  unfolding ishtp_pse_read
  read-Frees c acts w f l = ground (
    arith,
    wait_read-Frees acts (record w { pse = record (w.pse) { wait_exception = false } }) f l,
  )
