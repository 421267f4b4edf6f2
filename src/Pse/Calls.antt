-- ===== src/Pse/Calls.antt =====
-- What the calls of src/pse.c promise their callers: user space, and the bus.
use ubuntu_elkhart_lake_pse.Prelude.{
  ℕ, ◌≤◌, ◌<◌, ◌≡◌, ◌≢◌, ◌↔◌, not, ◌&&◌, refl, Bool, true, false, List, [], ◌∷◌, some, arith,
}
use ubuntu_elkhart_lake_pse.Ishtp.Types.{
  Code, ok, err, enodev, Rb, enabled, is_initializing, is_disconnected, cl_connected,
}
use ubuntu_elkhart_lake_pse.Pse.Types.{Bus, World, Outcome, done, blocked, fault}
use ubuntu_elkhart_lake_pse.Pse.File.{ishtp_pse_write}
use ubuntu_elkhart_lake_pse.Pse.Ioctl.{CcData, ishtp_pse_ioctl}
use ubuntu_elkhart_lake_pse.Pse.Events.{ishtp_pse_event_cb}
use ubuntu_elkhart_lake_pse.Pse.Probe.{
  pse_smhi_guid, same_guid, Chrdev, ishtp_pse_setup_chardev, ishtp_pse_probe,
}

abbrev pub is_ok : Code → Bool
is_ok (ok n) = true
is_ok (err e) = false

same_guid→≡ : (xs ys : List ℕ) → same_guid xs ys ≡ true → xs ≡ ys
unfolding same_guid
same_guid→≡ [] [] h = refl
same_guid→≡ [] (y ∷ ys) h = ground arith
same_guid→≡ (x ∷ xs) [] h = ground arith
same_guid→≡ (x ∷ xs) (y ∷ ys) h = ground (arith, same_guid→≡ xs ys)

same_guid_refl : (xs : List ℕ) → same_guid xs xs ≡ true
unfolding same_guid
same_guid_refl [] = refl
same_guid_refl (x ∷ xs) = ground (arith, same_guid_refl xs)

same_guid_iff : (xs ys : List ℕ) → (same_guid xs ys ≡ true) ↔ (xs ≡ ys)
same_guid_iff xs ys = (same_guid→≡ xs ys, λ e. rw e (same_guid_refl ys))

module _ {S : Type 0} where
  -- A character device is there as a whole, or the attempt has left nothing but, if `cdev_add` failed,
  -- the region.
  abbrev pub SetUp : Chrdev → World S → Outcome S Code → Type 0
  SetUp c w (done (ok n) w') =
      w'.pse ≡ record (w.pse) { region = true; cdev = true; cclass = true; node = true }
  SetUp c w (done (err e) w') =
      w'.pse ≡ record (w.pse) { region = is_ok c.region && not (is_ok c.add) }
  SetUp c w blocked = ⊥
  SetUp c w fault = ⊥

  -- Where no part of the character device is there yet, setting it up either completes, with its
  -- region, cdev, class and node, or fails and leaves nothing, except that the region stays if it was
  -- `cdev_add` that failed.
  pub setup_chardev_lem :
      (c : Chrdev) (w : World S)
      → w.pse.region ≡ false
      → w.pse.cdev ≡ false
      → w.pse.cclass ≡ false
      → w.pse.node ≡ false
      → SetUp c w (ishtp_pse_setup_chardev c w)
  unfolding ishtp_pse_setup_chardev
  setup_chardev_lem c w r d k n = ground arith

  -- The probe reports the outcome of the registration.
  abbrev pub Probed : Code → Outcome S Code → Type 0
  Probed (ok n) (done r w') = (r ≡ ok 0) × (w'.pse.cl_device ≡ true)
  Probed (err e) (done r w') = (r ≡ err e) × (w'.pse.cl_device ≡ true)
  Probed c blocked = ⊥
  Probed c fault = ⊥

  -- A call that returns an error and leaves everything as it was.
  abbrev pub Refused : World S → Outcome S Code → Type 0
  Refused w (done (ok n) w') = ⊥
  Refused w (done (err e) w') = w' ≡ w
  Refused w blocked = ⊥
  Refused w fault = ⊥

module _ {S : Type 0} (b : Bus S) where
  -- A write that succeeds has copied the user's bytes, and the copy succeeded; it has handed exactly one
  -- message to the bus, which took it: these bytes, at least one of them and no more than the
  -- firmware's client takes, over a live connection. Nothing else of the state changed.
  pub write_lem :
      (w w' : World S) (p : ℕ) (nonblock : Bool) (n k : ℕ) (memdup : Code × List ℕ)
      → w.pse.cl ≡ some p
      → ishtp_pse_write b nonblock n memdup w ≡ done (ok k) w'
      → (k ≡ n)
        × (is_ok memdup.0 ≡ true)
        × (0 < n)
        × (n ≤ b.max_msg_length p w.bus)
        × (b.dev_state w.bus ≡ enabled)
        × (b.cl_state p w.bus ≡ cl_connected)
        × (is_ok (b.ishtp_cl_send p memdup.1 n w.bus).0 ≡ true)
        × ((b.ishtp_cl_send p memdup.1 n w.bus).1 ≡ w'.bus)
        × (w'.pse ≡ w.pse)
  unfolding ishtp_pse_write
  write_lem w w' p nonblock n k memdup c h = ground arith

  -- An event callback never drops or replaces a message that a reader has not taken: with one at
  -- hand the callback leaves the driver and the bus as they are.
  pub event_cb_keeps :
      (w : World S) (rb : Rb)
      → w.pse.lock ≡ false
      → w.pse.rb ≡ some rb
      → ishtp_pse_event_cb b w ≡ done tt w
  unfolding ishtp_pse_event_cb
  event_cb_keeps w rb l r = ground arith

  -- The probe refuses every device but the PSE's, and then nothing changes.
  pub probe_foreign :
      (c : Chrdev) (w : World S)
      → b.protocol_name w.bus ≢ pse_smhi_guid
      → ishtp_pse_probe b true c w ≡ done (err enodev) w
  unfolding ishtp_pse_probe
  probe_foreign c w h = ground (arith, same_guid→≡ pse_smhi_guid (b.protocol_name w.bus))

  -- The probe of the PSE's device keeps the device and reports what the registration of the event
  -- callback returned, whether or not the character device could be set up.
  pub probe_lem :
      (c : Chrdev) (w : World S)
      → b.protocol_name w.bus ≡ pse_smhi_guid
      → Probed (b.ishtp_register_event_cb w.bus).0 (ishtp_pse_probe b true c w)
  unfolding ishtp_pse_probe
  probe_lem c w h = ground (arith, same_guid_refl pse_smhi_guid)

  -- A client that is neither fresh nor disconnected is not disturbed: whatever the request, the ioctl
  -- returns an error and nothing changes. So a client that a failed request left connecting takes no
  -- further request.
  pub ioctl_keeps_connection :
      (w : World S) (p : ℕ) (admin connect : Bool) (memdup : Code × CcData)
      → w.pse.cl ≡ some p
      → b.live p w.bus ≡ true
      → is_initializing (b.cl_state p w.bus) ≡ false
      → is_disconnected (b.cl_state p w.bus) ≡ false
      → Refused w (ishtp_pse_ioctl b admin connect memdup w)
  unfolding ishtp_pse_ioctl
  ioctl_keeps_connection w p admin connect memdup c a i d = ground arith
