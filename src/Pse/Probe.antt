-- ===== src/Pse/Probe.antt =====
-- Probing and removal of the device in src/pse.c.
use ubuntu_elkhart_lake_pse.Prelude.{ℕ, Bool, true, false, not, ◌&&◌, List, [], ◌∷◌, ◌==◌}
use ubuntu_elkhart_lake_pse.Ishtp.Types.{Code, ok, err, enodev, cl_disconnecting}
use ubuntu_elkhart_lake_pse.Pse.Types.{
  Bus, M, ◌>>=◌, ◌>>◌, pure, get_pse, modify, ask, bus_do, call, mutex_lock, mutex_unlock, deref,
  if◌then◌else◌, if_some, if_ok,
}
use ubuntu_elkhart_lake_pse.Pse.File.{drop_cl}

-- bb579a2e-cc54-4450-b1d0-5e7520dcad25 in the byte order of UUID_LE.
abbrev pub pse_smhi_guid : List ℕ
pse_smhi_guid =
    0x2e ∷ 0x9a ∷ 0x57 ∷ 0xbb ∷ 0x54 ∷ 0xcc ∷ 0x50 ∷ 0x44 ∷ 0xb1 ∷ 0xd0 ∷ 0x5e ∷ 0x75 ∷ 0x20 ∷ 0xdc
    ∷ 0xad ∷ 0x25 ∷ []

-- `uuid_le_cmp_g` is 0 exactly if the bytes agree.
unfoldable pub same_guid : List ℕ → List ℕ → Bool
same_guid [] [] = true
same_guid [] (y ∷ ys) = false
same_guid (x ∷ xs) [] = false
same_guid (x ∷ xs) (y ∷ ys) = x == y && same_guid xs ys

-- The outcomes of `alloc_chrdev_region`, `cdev_add`, `class_create` and `device_create`.
pub record Chrdev : Type 0 where
  pub region : Code
  pub add : Code
  pub class_ok : Bool
  pub node_ok : Bool

module _ {S : Type 0} where
  unfoldable pub ishtp_dealloc_chrdev : M S (Unit {0})
  ishtp_dealloc_chrdev = modify (λ d. record d { cclass = false; cdev = false; region = false })

  unfoldable pub ishtp_pse_setup_chardev : Chrdev → M S Code
  unfolding ishtp_dealloc_chrdev
  ishtp_pse_setup_chardev c =
      if_ok c.region
        (do
          modify (λ d. record d { region = true })
          if_ok c.add
              (do
                modify (λ d. record d { cdev = true; cclass = c.class_ok })
                if not c.class_ok
                    then ishtp_dealloc_chrdev >> pure (err enodev)
                    else (if not c.node_ok
                        then ishtp_dealloc_chrdev >> pure (err enodev)
                        else do modify (λ d. record d { node = true }); pure (ok 0)))
              (λ e. pure (err e)))
        (λ e. pure (err e))

module _ {S : Type 0} (b : Bus S) where
  -- `present` tells whether the argument is not NULL.
  unfoldable pub ishtp_pse_probe : Bool → Chrdev → M S Code
  unfolding ishtp_pse_setup_chardev same_guid
  ishtp_pse_probe present c = if not present then pure (err enodev) else do
    name ← ask b.protocol_name
    if not (same_guid pse_smhi_guid name) then pure (err enodev) else do
      modify (λ d. record d { cl_device = true; lock = false; work = false })
      ret ← call b.ishtp_register_event_cb
      if_ok ret (do ignored ← ishtp_pse_setup_chardev c; pure (ok 0)) (λ e. pure (err e))

  -- The connection is closed and its client dropped.
  pub close_cl : M S (Unit {0})
  unfolding drop_cl
  close_cl = do
    d ← get_pse
    if_some d.cl
        (λ p. do
          deref b p
          bus_do (b.set_cl_state p cl_disconnecting)
          ret ← call (b.ishtp_cl_disconnect p)
          drop_cl b p)
        (pure tt)

  unfoldable pub ishtp_pse_remove : M S (Unit {0})
  unfolding close_cl ishtp_dealloc_chrdev
  ishtp_pse_remove = do
    modify (λ d. record d { wait_exception = true })
    mutex_lock
    close_cl
    mutex_unlock
    bus_do b.ishtp_put_device
    modify (λ d. record d { node = false })
    ishtp_dealloc_chrdev
