-- ===== src/Examples/Client/Driver.antt =====
-- The exchange of commands, examples/pse.c, over the driver of src/pse.c.
use ubuntu_elkhart_lake_pse.Prelude.{
  ℕ, ◌-◌, ◌≤◌, ◌≡◌, refl, sym, ap, ◌∙◌, Bool, true, false, List, [], ◌∷◌, ◌++◌, Option, none, some,
  arith, length, take, drop, append_cut, take-take, take_split, length-take,
}
use ubuntu_elkhart_lake_pse.Prelude.Int.{ℤ, pos, negsuc}
use ubuntu_elkhart_lake_pse.Ishtp.Types.{Code, ok, err, Rb}
use ubuntu_elkhart_lake_pse.Pse.Types.{Bus, World, Outcome, done, blocked, fault}
use ubuntu_elkhart_lake_pse.Pse.File.{
  Activity, ReadResult, ishtp_pse_open, ishtp_pse_read, ishtp_pse_write, ishtp_pse_release,
}
use ubuntu_elkhart_lake_pse.Pse.Ioctl.{in_client_uuid, ishtp_pse_ioctl}
use ubuntu_elkhart_lake_pse.Pse.Reading.{HasMessage, consumed, read_call, read_more, read_last}
use ubuntu_elkhart_lake_pse.Examples.Heci.{
  Header, Body, header_bytes, body_bytes, header_of, body_of,
}
use ubuntu_elkhart_lake_pse.Examples.Heci.Layout.{
  IsHeader, IsBody, length-header_bytes, length-body_bytes, header_of-header_bytes,
  body_of-body_bytes,
}
use ubuntu_elkhart_lake_pse.Examples.Program.{Os, Output}
use ubuntu_elkhart_lake_pse.Examples.Client.{pse_read_response}

-- The open file: the driver, the file offset, and what was printed.
pub record OpenFile (S : Type 0) : Type 0 where
  pub driver : World S
  pub offset : ℕ
  pub printed : List Output

abbrev result : Code → ℤ
result (ok n) = pos n
result (err e) = negsuc 0

abbrev bytes_read : ReadResult → Option (List ℕ)
bytes_read r = elim r.code [ ok n ↦ some r.copied | err e ↦ none ]

-- A handler as a system call: a call that waits for ever or faults does not return.
abbrev system_call :
    {S A B : Type 0} → OpenFile S → Outcome S A → (A → B × ℕ) → Option (B × OpenFile S)
system_call f (done a w) g = some ((g a).0, record f { driver = w; offset = (g a).1 })
system_call f blocked g = none
system_call f fault g = none

-- The system calls on /dev/pse, of a program with or without CAP_SYS_ADMIN. The driver has no `poll`,
-- so the file can always be read for `select`. `acts` is what others do while a read waits, and `elapse`
-- while the program sleeps.
abbrev pub driver_os :
    {S : Type 0} → Bus S → Bool → List (Activity S) → (World S → World S) → Os (OpenFile S)
driver_os b admin acts elapse = record {
  open_pse = λ f.
      system_call f (ishtp_pse_open b false f.driver)
        (λ c. (elim c as (λ x. ℤ) [ ok n ↦ pos 3 | err e ↦ negsuc 0 ], 0));
  ioctl = λ fd uuid f.
      system_call f (ishtp_pse_ioctl b admin true (ok 0, in_client_uuid uuid) f.driver)
        (λ c. (result c, f.offset));
  write = λ fd bs f.
      system_call f (ishtp_pse_write b false (length bs) (ok 0, bs) f.driver) (λ c. (tt, f.offset));
  select = λ fd f. some (true, f);
  read = λ fd n f.
      system_call f (ishtp_pse_read b (read_call b n f.offset) acts f.driver)
        (λ r. (bytes_read r, r.offset));
  close = λ fd f. system_call f (ishtp_pse_release b f.driver) (λ c. (tt, f.offset));
  sleep = λ f. some (tt, record f { driver = elapse f.driver });
  print = λ o f. some (tt, record f { printed = f.printed ++ o ∷ [] });
}

module _ {S : Type 0} (os : Os S) where
  -- Both reads get what they asked for.
  both_read :
      (fd : ℤ) (s t u : S) (hs bs : List ℕ) (before : Body)
      → os.select fd s ≡ some (true, s)
      → os.read fd 6 s ≡ some (some hs, t)
      → length hs ≡ 6
      → (header_of hs).has_next ≡ true
      → os.read fd 233 t ≡ some (some bs, u)
      → length bs ≡ 233
      → pse_read_response os fd (some before) s
        ≡ some (record { length = pos 239; header = header_of hs; body = some (body_of bs) }, u)
  unfolding pse_read_response
  both_read fd s t u hs bs before e r l n r' l' = ground arith

  -- The second read is not made.
  header_read :
      (fd : ℤ) (s t : S) (hs : List ℕ)
      → os.select fd s ≡ some (true, s)
      → os.read fd 6 s ≡ some (some hs, t)
      → length hs ≡ 6
      → pse_read_response os fd none s
        ≡ some (record { length = pos 6; header = header_of hs; body = none }, t)
  unfolding pse_read_response
  header_read fd s t hs e r l = ground arith

module _ {S : Type 0} (b : Bus S) (admin : Bool) (acts : List (Activity S))
    (elapse : World S → World S) where
  -- The driver holds the response with this header and this body, and nothing of it was read.
  pub record HoldsResponse (f : OpenFile S) (p q : ℕ) (rb : Rb) (block : List ℕ) (h : Header)
      (m : Body) : Type 0 where
    pub held : HasMessage b f.driver p q rb block
    pub whole : rb.buf_idx ≡ 239
    pub bytes : take 239 block ≡ header_bytes h ++ body_bytes m
    pub unread : f.offset ≡ 0
    pub more : h.has_next ≡ true
    pub header_ok : IsHeader h
    pub body_ok : IsBody m

  parts :
      (block : List ℕ) (h : Header) (m : Body)
      → 239 ≤ length block
      → IsBody m
      → take 239 block ≡ header_bytes h ++ body_bytes m
      → (take 6 block ≡ header_bytes h) × (take 233 (drop 6 block) ≡ body_bytes m)
  parts block h m l i e =
      append_cut (take 6 block) (header_bytes h) (take 233 (drop 6 block)) (body_bytes m)
        (omega (arith, length-take 6 block, length-header_bytes h))
        (sym (take_split 6 233 block) ∙ e)

  abbrev os : Os (OpenFile S)
  os = driver_os b admin acts elapse

  read_header :
      (fd : ℤ) (f : OpenFile S) (p q : ℕ) (rb : Rb) (block : List ℕ) (h : Header) (m : Body)
      → HoldsResponse f p q rb block h m
      → os.read fd 6 f ≡ some (some (header_bytes h), record f { offset = 6 })
  read_header fd f p q rb block h m r =
      let (first, second) =
        parts block h m (omega (arith, r.held.filled, r.whole)) r.body_ok r.bytes in
      let e : f.offset ≡ 0 = r.unread in
      rw
        (
          e,
          read_more b f.driver p q rb block 6 0 acts r.held (omega arith) (omega (arith, r.whole)),
          first,
        )
        refl

  read_rest :
      (fd : ℤ) (f : OpenFile S) (p q : ℕ) (rb : Rb) (block : List ℕ) (h : Header) (m : Body)
      → HoldsResponse f p q rb block h m
      → os.read fd 233 (record f { offset = 6 })
        ≡ some (some (body_bytes m), record f { driver = consumed b f.driver rb; offset = 0 })
  read_rest fd f p q rb block h m r =
      let (first, second) =
        parts block h m (omega (arith, r.held.filled, r.whole)) r.body_ok r.bytes in
      let e : rb.buf_idx - 6 ≡ 233 = omega (arith, r.whole) in
      rw
        (
          read_last b f.driver p q rb block 233 6 acts r.held (omega arith) (omega (arith, r.whole))
              (omega (arith, r.whole)),
          e,
          second,
        )
        refl

  -- A response with a body that the driver holds is read whole: the header and the body are those that
  -- the firmware sent, and the driver has given its buffer back.
  pub pse_read_response_lem :
      (fd : ℤ) (f : OpenFile S) (p q : ℕ) (rb : Rb) (block : List ℕ) (h : Header) (m before : Body)
      → HoldsResponse f p q rb block h m
      → pse_read_response (driver_os b admin acts elapse) fd (some before) f
        ≡ some (
          record { length = pos 239; header = h; body = some m },
          record f { driver = consumed b f.driver rb; offset = 0 },
        )
  pse_read_response_lem fd f p q rb block h m before r =
      let read =
        both_read os fd f (record f { offset = 6 })
          (record f { driver = consumed b f.driver rb; offset = 0 }) (header_bytes h) (body_bytes m)
          before refl (read_header fd f p q rb block h m r) (length-header_bytes h)
          (ap (λ k. k.has_next) (header_of-header_bytes h r.header_ok) ∙ r.more)
          (read_rest fd f p q rb block h m r) (length-body_bytes m r.body_ok) in
      rw (header_of-header_bytes h r.header_ok, body_of-body_bytes m r.body_ok) at read

  -- A caller that gives no memory for the body gets the header of a response that has one, and the body
  -- stays in the driver: the next response that is read has for its header the first six bytes of the old
  -- body.
  pub dropped_body :
      (fd : ℤ) (f : OpenFile S) (p q : ℕ) (rb : Rb) (block : List ℕ) (h : Header) (m : Body)
      → HoldsResponse f p q rb block h m
      → (pse_read_response (driver_os b admin acts elapse) fd none f
          ≡ some (record { length = pos 6; header = h; body = none }, record f { offset = 6 }))
        × (pse_read_response (driver_os b admin acts elapse) fd none (record f { offset = 6 })
            ≡ some (
              record { length = pos 6; header = header_of (take 6 (body_bytes m)); body = none },
              record f { offset = 12 },
            ))
  dropped_body fd f p q rb block h m r =
      let (first, second) =
        parts block h m (omega (arith, r.held.filled, r.whole)) r.body_ok r.bytes in
      let stale : take 6 (drop 6 block) ≡ take 6 (body_bytes m) =
        sym (take-take 6 233 (drop 6 block) (omega arith)) ∙ ap (take 6) second in
      let six : length (take 6 (body_bytes m)) ≡ 6 =
        omega (arith, length-take 6 (body_bytes m), length-body_bytes m r.body_ok) in
      let again : os.read fd 6 (record f { offset = 6 })
          ≡ some (some (take 6 (body_bytes m)), record f { offset = 12 }) =
        rw
          (
            read_more b f.driver p q rb block 6 6 acts r.held (omega arith)
                (omega (arith, r.whole)),
            stale,
          )
          refl in
      let now =
        header_read os fd f (record f { offset = 6 }) (header_bytes h) refl
          (read_header fd f p q rb block h m r) (length-header_bytes h) in
      (
        rw (header_of-header_bytes h r.header_ok) at now,
        header_read os fd (record f { offset = 6 }) (record f { offset = 12 })
            (take 6 (body_bytes m)) refl again six,
      )
