-- ===== src/Pse/File.antt =====
-- The file operations of /dev/pse in src/pse.c: open, read, write and release.
use ubuntu_elkhart_lake_pse.Prelude.{
  ℕ, zero, suc, ◌+◌, ◌-◌, Bool, true, false, not, ◌&&◌, ◌||◌, List, [], ◌∷◌, none, some, ltb, ◌==◌,
  take, drop, min,
}
use ubuntu_elkhart_lake_pse.Ishtp.Types.{
  Code, ok, err, einval, enodev, enomem, efault, eio, emsgsize, erestartsys, is_enabled,
  is_connected, cl_disconnecting, Rb,
}
use ubuntu_elkhart_lake_pse.Ishtp.Send.{bytes_of}
use ubuntu_elkhart_lake_pse.Pse.Types.{
  Bus, PseDevice, done, fault, M, ◌>>=◌, ◌>>◌, pure, get_pse, modify, ask, bus_do, call, mutex_lock,
  mutex_unlock, deref, if◌then◌else◌, if_some, if_ok,
}

abbrev pub wait_for_send_count : ℕ
wait_for_send_count = 10

-- What other threads do while the driver waits: a signal for the waiting process, or a handler.
pub data Activity (S : Type 0) : Type 0 where
  signal : Activity S
  other : M S (Unit {0}) → Activity S

-- A call of `read`: is `ubuf` not NULL, the length, the file offset, and whether `copy_to_user`
-- succeeds.
pub record ReadCall : Type 0 where
  pub nonblock : Bool
  pub ubuf : Bool
  pub length : ℕ
  pub offset : ℕ
  pub copy_ok : Bool

-- What it returns, what has arrived in the user's buffer, and the new offset.
pub record ReadResult : Type 0 where
  pub code : Code
  pub copied : List ℕ
  pub offset : ℕ

-- The condition that a reader waits for.
abbrev pub ready : PseDevice → Bool
ready d = elim d.rb [ none ↦ d.wait_exception | some rb ↦ true ]

-- A signal ends the wait; after a handler the wait goes on.
abbrev during : {S : Type 0} → Activity S → M S Bool → M S Bool
during a rest w = elim a [ signal ↦ done false w | other m ↦ (m >> rest) w ]

module _ {S : Type 0} (b : Bus S) where
  -- CHECK_ISHTP_ALLOC
  unfoldable pub check_alloc : {A : Type 0} → A → (ℕ → M S A) → M S A
  check_alloc refused k = do
    d ← get_pse
    if_some d.cl (λ p. if d.cl_device then k p else pure refused) (pure refused)

  -- CHECK_ISHTP_CONNECTION_ALIVE
  unfoldable pub check_alive : {A : Type 0} → A → ℕ → M S A → M S A
  check_alive refused p k = do
    deref b p
    ds ← ask b.dev_state
    cs ← ask (b.cl_state p)
    if is_enabled ds && is_connected cs then k else pure refused

  -- The call follows `rb->cl`.
  pub recycle : Rb → M S Code
  recycle rb =
      if_some rb.cl (λ p. deref b p >> call (b.ishtp_cl_io_rb_recycle rb)) (pure (err efault))

  unfoldable pub ishtp_pse_open : Bool → M S Code
  ishtp_pse_open nonblock = if nonblock then pure (err einval) else do
    d ← get_pse
    if not d.cl_device then pure (err enodev) else do
      o ← call b.ishtp_cl_allocate
      modify (λ d. record d { cl = o })
      if_some o
          (λ p. do
            ret ← call (b.ishtp_cl_link p)
            if_ok ret (pure (ok 0)) (λ e. bus_do (b.kfree p) >> pure (err e)))
          (pure (err enomem))

  -- `wait_event_interruptible_timeout`: `false` after a signal, or if the time is up and the
  -- condition does not hold.
  unfoldable pub wait_read : List (Activity S) → M S Bool
  wait_read [] = do d ← get_pse; pure (ready d)
  wait_read (a ∷ as') =
      let rest = wait_read as' in do d ← get_pse; if ready d then pure true else during a rest

  abbrev pub refuse : ReadCall → Code → ReadResult
  refuse c code = record { code = code; copied = []; offset = c.offset }

  -- The last bytes were read: the buffer goes back to the bus.
  finish_message : Rb → M S (Unit {0})
  unfolding recycle
  finish_message rb = do ret ← recycle rb; modify (λ d. record d { rb = none }); mutex_unlock

  copy_out : ReadCall → Rb → M S ReadResult
  unfolding finish_message
  copy_out c rb =
      let n = min c.length (rb.buf_idx - c.offset) in
      let copied = take n (drop c.offset (bytes_of rb.content)) in
      if c.length == 0 || not c.ubuf || ltb rb.buf_idx c.offset
      then mutex_unlock >> pure (refuse c (err emsgsize))
      else if not c.copy_ok
      then mutex_unlock >> pure (refuse c (err efault))
      else if ltb (c.offset + n) rb.buf_idx
      then mutex_unlock >> pure (record { code = ok n; copied = copied; offset = c.offset + n })
      else finish_message rb >> pure (record { code = ok n; copied = copied; offset = 0 })

  -- The part of `ishtp_pse_read` under the lock.
  unfoldable pub read_copy : ReadCall → M S ReadResult
  unfolding copy_out
  read_copy c = do mutex_lock; d ← get_pse; if_some d.rb (copy_out c) (λ w. fault)

  -- With no buffer at hand the reader waits; then the device is checked again.
  unfoldable pub read_wait : ReadCall → List (Activity S) → M S ReadResult
  unfolding wait_read check_alloc check_alive read_copy
  read_wait c acts = do
    modify (λ d. record d { wait_exception = false })
    woken ← wait_read acts
    if not woken
        then pure (refuse c (err erestartsys))
        else check_alloc (refuse c (err enodev)) λ p.
          check_alive (refuse c (err enodev)) p
            (do d ← get_pse; if_some d.rb (λ rb. read_copy c) (pure (refuse c (err eio))))

  unfoldable pub ishtp_pse_read : ReadCall → List (Activity S) → M S ReadResult
  unfolding check_alloc check_alive read_copy read_wait
  ishtp_pse_read c acts = check_alloc (refuse c (err enodev)) λ p.
      check_alive (refuse c (err enodev)) p (
        if c.nonblock
        then pure (refuse c (err einval))
        else do d ← get_pse; if_some d.rb (λ rb. read_copy c) (read_wait c acts))

  -- `memdup` is the outcome of `memdup_user`: the bytes, or the error.
  unfoldable pub ishtp_pse_write : Bool → ℕ → Code × List ℕ → M S Code
  unfolding check_alloc check_alive
  ishtp_pse_write nonblock length memdup = check_alloc (err enodev) λ p.
      check_alive (err enodev) p (
        if nonblock then pure (err einval) else do
          limit ← ask (b.max_msg_length p)
          if length == 0 || ltb limit length
              then pure (err emsgsize)
              else if_ok memdup.0
                  (do
                    ret ← call (b.ishtp_cl_send p memdup.1 length)
                    if_ok ret (pure (ok length)) (λ e. pure (err e)))
                  (λ e. pure (err e)))

  -- At most `n` rounds of waiting for the transmit queue to run empty.
  unfoldable pub wait_sent : ℕ → ℕ → M S (Unit {0})
  wait_sent zero p = pure tt
  wait_sent (suc n) p =
      let rest = wait_sent n p in
      do empty ← ask (b.ishtp_cl_tx_empty p); if empty then pure tt else bus_do b.msleep >> rest

  -- A live connection is closed after its messages are sent.
  unfoldable pub disconnect_live : ℕ → M S Code
  unfolding wait_sent
  disconnect_live p = do
    deref b p
    ds ← ask b.dev_state
    cs ← ask (b.cl_state p)
    if is_enabled ds && is_connected cs
        then (do
          wait_sent wait_for_send_count p
          bus_do (b.set_cl_state p cl_disconnecting)
          call (b.ishtp_cl_disconnect p))
        else pure (ok 0)

  -- Unlink, flush and free the client.
  unfoldable pub drop_cl : ℕ → M S (Unit {0})
  drop_cl p = do
    bus_do (b.ishtp_cl_unlink p)
    bus_do (b.ishtp_cl_flush_queues p)
    bus_do (b.ishtp_cl_free p)
    modify (λ d. record d { cl = none })

  -- The read buffer is recycled after its client was freed.
  pub clean_rb : M S (Unit {0})
  unfolding recycle
  clean_rb = do
    d ← get_pse
    if_some d.rb (λ rb. do ret ← recycle rb; modify (λ d. record d { rb = none })) (pure tt)

  unfoldable pub ishtp_pse_release : M S Code
  unfolding check_alloc disconnect_live drop_cl clean_rb
  ishtp_pse_release = check_alloc (err enodev) λ p. do
    modify (λ d. record d { wait_exception = true })
    mutex_lock
    ret ← disconnect_live p
    drop_cl p
    clean_rb
    mutex_unlock
    pure ret
