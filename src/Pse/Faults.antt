-- ===== src/Pse/Faults.antt =====
-- Error paths of src/pse.c after which the driver waits for ever or uses freed memory.
use ubuntu_elkhart_lake_pse.Prelude.{
  ℕ, ◌≡◌, true, false, List, none, some, arith, Bool-cases, inl, inr, ◌&&◌,
}
use ubuntu_elkhart_lake_pse.Ishtp.Types.{
  Errno, Code, ok, err, Rb, is_enabled, is_connected, cl_disconnecting,
}
use ubuntu_elkhart_lake_pse.Pse.Types.{Bus, World, done, blocked, fault}
use ubuntu_elkhart_lake_pse.Pse.File.{
  ReadCall, Activity, ishtp_pse_open, ishtp_pse_read, ishtp_pse_write, ishtp_pse_release,
  disconnect_live,
}
use ubuntu_elkhart_lake_pse.Pse.Events.{ishtp_pse_event_cb, ishtp_cl_reset_handler}
use ubuntu_elkhart_lake_pse.Pse.Probe.{ishtp_pse_remove}
use ubuntu_elkhart_lake_pse.Pse.Lock.{wait_sent_lem}

module _ {S : Type 0} (b : Bus S) where
  -- If the reset work finds the mutex free and a client in memory, and cannot allocate its
  -- replacement, it returns with the mutex held: the next event callback, the next reset work and
  -- the removal of the device then wait for ever.
  pub reset_handler_keeps_lock :
      (w : World S) (p : ℕ)
      → w.pse.ishtp_dev ≡ true
      → w.pse.lock ≡ false
      → w.pse.cl ≡ some p
      → b.live p w.bus ≡ true
      → ((s : S) → (b.ishtp_cl_allocate s).0 ≡ none)
      → (w' : World S) × (ishtp_cl_reset_handler b w ≡ done tt w')
        × (ishtp_pse_event_cb b w' ≡ blocked)
        × (ishtp_cl_reset_handler b w' ≡ blocked)
        × (ishtp_pse_remove b w' ≡ blocked)
  unfolding ishtp_cl_reset_handler ishtp_pse_event_cb ishtp_pse_remove
  reset_handler_keeps_lock w p d l c a f =
      let bus = b.ishtp_cl_free p (b.ishtp_cl_flush_queues p (b.ishtp_cl_unlink p w.bus)) in
      (
        record {
          pse = record (w.pse) { wait_exception = true; lock = true; cl = none };
          bus = (b.ishtp_cl_allocate bus).1;
        },
        ground (arith, f bus),
        ground arith,
        ground arith,
        ground arith,
      )

  -- If a client is allocated and cannot be linked, `open` returns the error and frees the client but
  -- keeps the pointer to it: the next `write` and the next `read` use freed memory.
  pub open_dangles :
      (w : World S) (p : ℕ) (e : Errno) (n : ℕ) (memdup : Code × List ℕ) (c : ReadCall)
      (acts : List (Activity S))
      → w.pse.cl_device ≡ true
      → (b.ishtp_cl_allocate w.bus).0 ≡ some p
      → ((s : S) → (b.ishtp_cl_link p s).0 ≡ err e)
      → ((s : S) → b.live p (b.kfree p s) ≡ false)
      → (w' : World S) × (ishtp_pse_open b false w ≡ done (err e) w')
        × (ishtp_pse_write b false n memdup w' ≡ fault)
        × (ishtp_pse_read b c acts w' ≡ fault)
  unfolding ishtp_pse_open ishtp_pse_write ishtp_pse_read
  open_dangles w p e n memdup c acts d a l k =
      let bus = (b.ishtp_cl_link p (b.ishtp_cl_allocate w.bus).1).1 in
      (
        record { pse = record (w.pse) { cl = some p }; bus = b.kfree p bus },
        ground (arith, l (b.ishtp_cl_allocate w.bus).1),
        ground (arith, k bus),
        ground (arith, k bus),
      )

  disconnect_live_lem :
      (w : World S) (p : ℕ)
      → b.live p w.bus ≡ true
      → (r : Code) × (s : S) × (disconnect_live b p w ≡ done r (record w { bus = s }))
  unfolding disconnect_live
  disconnect_live_lem w p a =
      elim (Bool-cases (is_enabled (b.dev_state w.bus) && is_connected (b.cl_state p w.bus))) [
        | inl e ↦
            let (s, h) = wait_sent_lem b 10 p w in
            let t = b.set_cl_state p cl_disconnecting s in
            ((b.ishtp_cl_disconnect p t).0, (b.ishtp_cl_disconnect p t).1, ground (arith, h))
        | inr e ↦ (ok 0, w.bus, ground arith)
      ]

  -- If `close` is called, with the mutex free, while a message of the driver's client waits to be
  -- read, the message's buffer is given back through the client that was freed a few lines before,
  -- whatever the connection is.
  pub release_uses_freed :
      (w : World S) (p : ℕ) (rb : Rb)
      → w.pse.cl ≡ some p
      → w.pse.cl_device ≡ true
      → w.pse.lock ≡ false
      → w.pse.rb ≡ some rb
      → rb.cl ≡ some p
      → b.live p w.bus ≡ true
      → ((s : S) → b.live p (b.ishtp_cl_free p s) ≡ false)
      → ishtp_pse_release b w ≡ fault
  unfolding ishtp_pse_release
  release_uses_freed w p rb c d l r o a f =
      let held : World S = record w {
        pse = record (w.pse) { wait_exception = true; lock = true };
      } in
      let (code, s, h) = disconnect_live_lem held p a in
      ground (arith, h, f (b.ishtp_cl_flush_queues p (b.ishtp_cl_unlink p s)))
