-- ===== src/Pse/Lock/Requests.antt =====
-- Any sequence of calls of the handlers of src/pse.c, from user space and from the bus, with other
-- calls between while a reader waits.
use ubuntu_elkhart_lake_pse.Prelude.{
  ℕ, ◌≡◌, ◌≢◌, Bool, true, false, List, [], ◌∷◌, Option, none, some, arith, inl, inr, Option-cases,
}
use ubuntu_elkhart_lake_pse.Ishtp.Types.{Code}
use ubuntu_elkhart_lake_pse.Pse.Types.{
  Bus, World, Outcome, done, blocked, fault, M, ◌>>=◌, ◌>>◌, pure,
}
use ubuntu_elkhart_lake_pse.Pse.File.{
  Activity, signal, other, ReadCall, ishtp_pse_open, ishtp_pse_read, ishtp_pse_write,
  ishtp_pse_release,
}
use ubuntu_elkhart_lake_pse.Pse.Ioctl.{CcData, ishtp_pse_ioctl}
use ubuntu_elkhart_lake_pse.Pse.Events.{
  ishtp_pse_event_cb, ishtp_pse_reset, ishtp_cl_reset_handler, replace_cl,
}
use ubuntu_elkhart_lake_pse.Pse.Probe.{ishtp_pse_remove}
use ubuntu_elkhart_lake_pse.Pse.Lock.{
  Frees, AllFree, then-Frees, open-Frees, write-Frees, release-Frees, ioctl-Frees, event_cb-Frees,
  remove-Frees, read-Frees,
}

-- A call of a handler, with the outcome of the kernel calls that it makes.
pub data Request : Type 0 where
  open_request : Bool → Request
  write_request : Bool → ℕ → Code × List ℕ → Request
  ioctl_request : Bool → Bool → Code × CcData → Request
  read_request : ReadCall → Request
  release_request event_request reset_request reset_work_request remove_request : Request

abbrev discard : {S A : Type 0} → M S A → M S (Unit {0})
discard m = do a ← m; pure tt

-- A reader that finds no message waits while the requests of the list are served; `none` is a signal.
pub data Call : Type 0 where
  short_call : Request → Call
  read_call : ReadCall → List (Option Request) → Call

module _ {S : Type 0} (b : Bus S) where
  pub serve : Request → M S (Unit {0})
  serve (open_request nonblock) = discard (ishtp_pse_open b nonblock)
  serve (write_request nonblock n memdup) = discard (ishtp_pse_write b nonblock n memdup)
  serve (ioctl_request admin connect memdup) = discard (ishtp_pse_ioctl b admin connect memdup)
  serve (read_request c) = discard (ishtp_pse_read b c [])
  serve release_request = discard (ishtp_pse_release b)
  serve event_request = ishtp_pse_event_cb b
  serve reset_request = discard (ishtp_pse_reset b)
  serve reset_work_request = ishtp_cl_reset_handler b
  serve remove_request = ishtp_pse_remove b

  pub meanwhile : List (Option Request) → List (Activity S)
  unfolding serve
  meanwhile [] = []
  meanwhile (none ∷ rs) = signal ∷ meanwhile rs
  meanwhile (some r ∷ rs) = other (serve r) ∷ meanwhile rs

  pub run : List Call → M S (Unit {0})
  unfolding serve meanwhile
  run [] = pure tt
  run (short_call r ∷ cs) = serve r >> run cs
  run (read_call c rs ∷ cs) = discard (ishtp_pse_read b c (meanwhile rs)) >> run cs

  discard-Frees :
      {A : Type 0} (r : Outcome S A)
      → Frees r
      → Frees (elim r as (λ x. Outcome S (Unit {0})) [
        | done a w ↦ done tt w
        | blocked ↦ blocked
        | fault ↦ fault
      ])
  discard-Frees (done a w) h = h
  discard-Frees blocked h = h
  discard-Frees fault h = tt

  reset-Frees : (w : World S) → w.pse.lock ≡ false → Frees (ishtp_pse_reset b w)
  unfolding ishtp_pse_reset
  reset-Frees w l = ground arith

  module _ (allocates : (s : S) → (b.ishtp_cl_allocate s).0 ≢ none) where
    replace_cl-Frees : (p : ℕ) (w : World S) → Frees (replace_cl b p w)
    unfolding replace_cl
    replace_cl-Frees p w =
        let bus = b.ishtp_cl_free p (b.ishtp_cl_flush_queues p (b.ishtp_cl_unlink p w.bus)) in
        ground (arith, allocates bus)

    reset_handler-Frees : (w : World S) → w.pse.lock ≡ false → Frees (ishtp_cl_reset_handler b w)
    unfolding ishtp_cl_reset_handler
    reset_handler-Frees w l = elim (Option-cases w.pse.cl) [
      | inl e ↦ ground arith
      | inr (p, e) ↦
          let held : World S = record w {
            pse = record (w.pse) { wait_exception = true; lock = true };
          } in
          ground (arith, replace_cl-Frees p held)
    ]

    serve-Frees : (r : Request) (w : World S) → w.pse.lock ≡ false → Frees (serve r w)
    unfolding serve
    serve-Frees (open_request nonblock) w l =
        discard-Frees (ishtp_pse_open b nonblock w) (open-Frees b nonblock w l)
    serve-Frees (write_request nonblock n memdup) w l =
        discard-Frees (ishtp_pse_write b nonblock n memdup w) (write-Frees b nonblock n memdup w l)
    serve-Frees (ioctl_request admin connect memdup) w l =
        discard-Frees (ishtp_pse_ioctl b admin connect memdup w)
          (ioctl-Frees b admin connect memdup w l)
    serve-Frees (read_request c) w l =
        discard-Frees (ishtp_pse_read b c [] w) (read-Frees b c [] w tt l)
    serve-Frees release_request w l = discard-Frees (ishtp_pse_release b w) (release-Frees b w l)
    serve-Frees event_request w l = event_cb-Frees b w l
    serve-Frees reset_request w l = discard-Frees (ishtp_pse_reset b w) (reset-Frees w l)
    serve-Frees reset_work_request w l = reset_handler-Frees w l
    serve-Frees remove_request w l = remove-Frees b w l

    meanwhile-AllFree : (rs : List (Option Request)) → AllFree (meanwhile rs)
    unfolding meanwhile
    meanwhile-AllFree [] = tt
    meanwhile-AllFree (none ∷ rs) = meanwhile-AllFree rs
    meanwhile-AllFree (some r ∷ rs) = (serve-Frees r, meanwhile-AllFree rs)

    -- If no allocation of a client fails and the mutex is free at the start, then no sequence of
    -- calls of the handlers, with others in between while a reader waits, ends in a wait for a
    -- mutex that is held for ever; and if the sequence returns, the mutex is free.
    pub run-Frees : (cs : List Call) (w : World S) → w.pse.lock ≡ false → Frees (run cs w)
    unfolding run
    run-Frees [] w l = l
    run-Frees (short_call r ∷ cs) w l =
        then-Frees (serve r w) (run cs) (serve-Frees r w l) (run-Frees cs)
    run-Frees (read_call c rs ∷ cs) w l =
        then-Frees (discard (ishtp_pse_read b c (meanwhile rs)) w) (run cs)
          (discard-Frees (ishtp_pse_read b c (meanwhile rs) w)
            (read-Frees b c (meanwhile rs) w (meanwhile-AllFree rs) l))
          (run-Frees cs)
