-- ===== src/Pse/Events.antt =====
-- What the bus calls in src/pse.c: the event callback, and the reset with its work handler.
use ubuntu_elkhart_lake_pse.Prelude.{ℕ, true, not, Option, none, some}
use ubuntu_elkhart_lake_pse.Ishtp.Types.{
  Code, ok, err, enodev, enoent, is_enabled, cl_connecting, Rb,
}
use ubuntu_elkhart_lake_pse.Pse.Types.{
  Bus, PseDevice, fault, M, ◌>>=◌, ◌>>◌, pure, get_pse, modify, ask, bus_do, call, mutex_lock,
  mutex_unlock, deref, if◌then◌else◌, if_some, if_ok,
}
use ubuntu_elkhart_lake_pse.Pse.File.{drop_cl}

-- What was read from the bus becomes the read buffer; nothing is an exception for the reader.
abbrev pub received : Option Rb → PseDevice → PseDevice
received none d = record d { wait_exception = true }
received (some rb) d = record d { rb = some rb }

module _ {S : Type 0} (b : Bus S) where
  -- A message is taken from the bus only if no other is waiting for a reader.
  unfoldable pub ishtp_pse_event_cb : M S (Unit {0})
  ishtp_pse_event_cb = do
    mutex_lock
    d ← get_pse
    if_some d.rb (λ rb. pure tt)
        (if_some d.cl (λ p. do deref b p; o ← call (b.ishtp_cl_rx_get_rb p); modify (received o))
          (λ w. fault))
    mutex_unlock

  -- The steps from the check of the device to the connection.
  pub reconnect : ℕ → M S Code
  reconnect p = do
    ds ← ask b.dev_state
    if not (is_enabled ds) then pure (err enodev) else do
      linked ← call (b.ishtp_cl_link p)
      if_ok linked
          (do
            name ← ask b.protocol_name
            o ← ask (b.ishtp_fw_cl_get_client name)
            if_some o
                (λ fw_client. do
                  bus_do (b.set_fw_client_id p fw_client.client_id)
                  bus_do (b.set_cl_state p cl_connecting)
                  call (b.ishtp_cl_connect p))
                (pure (err enoent)))
          (λ e. pure (err e))

  -- The label `unlink`: a failure frees the new client, a success registers the callback again.
  pub finish_reset : ℕ → Code → M S (Unit {0})
  finish_reset p ret =
      if_ok ret (do ignored ← call b.ishtp_register_event_cb; mutex_unlock)
        (λ e. do bus_do (b.ishtp_cl_free p); modify (λ d. record d { cl = none }); mutex_unlock)

  -- The old client is dropped and a new one allocated; if that fails, the handler returns at once.
  unfoldable pub replace_cl : ℕ → M S (Unit {0})
  unfolding drop_cl reconnect finish_reset
  replace_cl p = do
    deref b p
    drop_cl b p
    o ← call b.ishtp_cl_allocate
    modify (λ d. record d { cl = o })
    if_some o (λ q. do ret ← reconnect q; finish_reset q ret) (pure tt)

  unfoldable pub ishtp_cl_reset_handler : M S (Unit {0})
  unfolding replace_cl
  ishtp_cl_reset_handler = do
    d ← get_pse
    if not d.ishtp_dev then pure tt else do
      modify (λ d. record d { wait_exception = true })
      mutex_lock
      d ← get_pse
      if_some d.cl replace_cl (do ret ← call b.ishtp_register_event_cb; mutex_unlock)

  -- The bus tells of a reset: the work is scheduled.
  unfoldable pub ishtp_pse_reset : M S Code
  ishtp_pse_reset = do
    d ← get_pse
    if not d.cl_device
        then pure (err enodev)
        else do modify (λ d. record d { work = true }); pure (ok 0)
