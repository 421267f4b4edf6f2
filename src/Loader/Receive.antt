-- ===== src/Loader/Receive.antt =====
-- The messages that come from the hub, src/intel-ish-hid-linux-6.5/ishtp-fw-loader.c, `process_recv`: into the
-- buffer of the caller, or too late.
use mathlib.Core.Path.{subst}
use ubuntu_elkhart_lake_pse.Prelude.{
  ℕ, ◌≤◌, ◌≡◌, refl, ap, ◌∙◌, Bool, true, false, not, List, [], ◌∷◌, ◌++◌, Option, none, some,
  arith, ◌==◌, ltb, length, get_or, memcpy, length-memcpy, append_assoc, append-nil, sym,
  if◌then◌else◌,
}
use ubuntu_elkhart_lake_pse.Ishtp.Types.{
  Errno, Code, ok, err, einval, ebadmsg, emsgsize, eproto, eio, etimedout, Rb,
}
use ubuntu_elkhart_lake_pse.Loader.{
  Target, null, gone, buffer, Sent, Loader, Shim, Outcome, done, dead_write, endless, ◌>>=◌,
  command_of, is_response, is_command, is_null, refused, copy_response, parse, process_recv,
  loader_cl_event_cb, answer, begun, frame_ends, loader_cmd_start,
}
use ubuntu_elkhart_lake_pse.Loader.Xfer.{ish_fw_start, returning}
use ubuntu_elkhart_lake_pse.Loader.Exchange.{IsAck, send_through}

-- The bytes that a caller's buffer has room for.
abbrev pub room : Target → ℕ
room null = 0
room gone = 0
room (buffer b) = length b

-- The caller said no more than its buffer has.
abbrev pub Takes : Target → ℕ → Type 0
Takes null n = Unit
Takes gone n = Unit
Takes (buffer b) n = n ≤ length b

abbrev pub IsMeasured : Loader → Type 0
IsMeasured s = Takes s.target s.max_size

-- The bytes that a receive buffer counts are in its block.
abbrev pub IsWhole : Rb → Type 0
IsWhole rb = (msg : List ℕ) → rb.content ≡ some msg → rb.buf_idx ≤ length msg

-- Whatever was done with the messages `rbs`: each was given back, once and in order, the caller's buffer
-- has the size that it had, and nothing was written to a frame that is gone unless there is none.
abbrev pub Handled : List Rb → Loader → Outcome (Unit {0}) → Type 0
Handled rbs s (done u t) =
    (t.recycled ≡ s.recycled ++ rbs)
    × (room t.target ≡ room s.target)
    × (t.max_size ≡ s.max_size)
    × IsMeasured t
    × (t.target ≡ gone → s.target ≡ gone)
Handled rbs s dead_write = s.target ≡ gone
Handled rbs s endless = ⊥

refused-Handled :
    (e : Errno) (rb : Rb) (s : Loader) → IsMeasured s → Handled (rb ∷ []) s (refused e rb s)
refused-Handled e rb s m = (refl, refl, refl, m, λ g. g)

if-Handled :
    (b : Bool) (rbs : List Rb) (s : Loader) (x y : Outcome (Unit {0}))
    → Handled rbs s x
    → (b ≡ false → Handled rbs s y)
    → Handled rbs s (if b then x else y)
if-Handled true rbs s x y h k = h
if-Handled false rbs s x y h k = k refl

copy-Handled :
    (msg : List ℕ) (rb : Rb) (s : Loader) (v : Target)
    → s.target ≡ v
    → IsMeasured s
    → rb.buf_idx ≤ length msg
    → ltb s.max_size rb.buf_idx ≡ false
    → Handled (rb ∷ []) s (copy_response msg rb s v)
unfolding copy_response
copy-Handled msg rb s null e m w k = refused-Handled einval rb s m
copy-Handled msg rb s gone e m w k = e
copy-Handled msg rb s (buffer b) e m w k =
    let measured : s.max_size ≤ length b = subst (λ v. Takes v s.max_size) e m in
    let kept : length (memcpy b msg rb.buf_idx) ≡ length b =
      length-memcpy b msg rb.buf_idx (ground arith) w in
    (refl, kept ∙ sym (ap room e), refl, omega (arith, kept, measured), λ g. absurd (cc))

parse-Handled :
    (msg : List ℕ) (rb : Rb) (s : Loader)
    → IsMeasured s
    → rb.buf_idx ≤ length msg
    → Handled (rb ∷ []) s (parse msg rb s)
unfolding parse
parse-Handled msg rb s m w =
    if-Handled (ltb rb.buf_idx 4) (rb ∷ []) s _ _ (refused-Handled emsgsize rb s m) (λ _.
      if-Handled (not (is_command (command_of msg))) (rb ∷ []) s _ _ (refused-Handled eproto rb s m)
        (λ _.
          if-Handled (ltb s.max_size rb.buf_idx) (rb ∷ []) s _ _ (refused-Handled emsgsize rb s m)
            (λ k.
              if-Handled (not (is_response msg)) (rb ∷ []) s _ _ (refused-Handled eio rb s m) (λ _.
                if-Handled (not (get_or msg 3 0 == 0)) (rb ∷ []) s _ _ (refused-Handled eio rb s m)
                  (λ _. copy-Handled msg rb s s.target refl m w k)))))

content-Handled :
    (rb : Rb) (o : Option (List ℕ)) (s : Loader)
    → IsMeasured s
    → ((msg : List ℕ) → o ≡ some msg → rb.buf_idx ≤ length msg)
    → Handled (rb ∷ []) s (elim o as (λ x. Outcome (Unit {0})) [
      | none ↦ refused ebadmsg rb s
      | some msg ↦ parse msg rb s
    ])
content-Handled rb none s m w = refused-Handled ebadmsg rb s m
content-Handled rb (some msg) s m w = parse-Handled msg rb s m (w msg refl)

process_recv-Handled :
    (rb : Rb) (s : Loader) → IsMeasured s → IsWhole rb → Handled (rb ∷ []) s (process_recv rb s)
unfolding process_recv
process_recv-Handled rb s m w =
    if-Handled (is_null s.target) (rb ∷ []) s _ _ (refused-Handled einval rb s m) (λ _.
      if-Handled s.received (rb ∷ []) s _ _ (refused-Handled einval rb s m)
        (λ _. content-Handled rb rb.content s m w))

abbrev pub AllWhole : List Rb → Type 0
AllWhole [] = Unit
AllWhole (rb ∷ rbs) = IsWhole rb × AllWhole rbs

-- Whatever messages come, valid or not, expected or not, and of any length: each buffer is given back to
-- its client exactly once and in the order of arrival, and the buffer that the caller waits on keeps
-- its size, so nothing is written past its end. Only if the caller has returned can a message be
-- written to a stack frame that is gone. The hypotheses: the caller stated no more room than its buffer
-- has, and each receive buffer has the bytes that it counts.
pub event_cb-Handled :
    (rbs : List Rb) (s : Loader)
    → IsMeasured s
    → AllWhole rbs
    → Handled rbs s (loader_cl_event_cb rbs s)
unfolding loader_cl_event_cb
event_cb-Handled [] s m w = (sym (append-nil s.recycled), refl, refl, m, λ g. g)
event_cb-Handled (rb ∷ rbs) s m (w, ws) =
    then_rest (process_recv rb s) (process_recv-Handled rb s m w)
      (λ t k. event_cb-Handled rbs t k ws)
  where
    joined :
        (t : Loader)
        → Handled (rb ∷ []) s (done tt t)
        → (o : Outcome (Unit {0})) → Handled rbs t o
        → Handled (rb ∷ rbs) s o
    joined t (a, b, c, d, i) (done u v) (e, f, g, h, j) = (
      e ∙ ap (λ x. x ++ rbs) a ∙ append_assoc s.recycled (rb ∷ []) rbs,
      f ∙ b,
      g ∙ c,
      h,
      λ x. i (j x),
    )
    joined t (a, b, c, d, i) dead_write e = i e
    joined t (a, b, c, d, i) endless e = e

    then_rest :
        (o : Outcome (Unit {0}))
        → Handled (rb ∷ []) s o
        → ((t : Loader) → IsMeasured t → Handled rbs t (loader_cl_event_cb rbs t))
        → Handled (rb ∷ rbs) s (o >>= λ _ t. loader_cl_event_cb rbs t)
    then_rest (done u t) (a, b, c, d, i) rest =
        joined t (a, b, c, d, i) (loader_cl_event_cb rbs t) (rest t d)
    then_rest dead_write e rest = e
    then_rest endless e rest = e

abbrev pub start_message : Sent
start_message = record { message = loader_cmd_start ∷ 0 ∷ 0 ∷ 0 ∷ []; dma_mem = [] }

-- A valid response is written through the pointer.
ack-dead_write :
    (rb : Rb) (s : Loader)
    → IsAck rb
    → s.target ≡ gone
    → s.received ≡ false
    → s.max_size ≡ 4
    → process_recv rb s ≡ dead_write
unfolding process_recv parse copy_response
ack-dead_write rb s (msg, c, k, a, b, z) e f g = ground arith

-- A response that comes after its command has timed out: where the hub answers the start of the firmware
-- only after the three seconds, the driver returns -ETIMEDOUT, and the answer is then written to the
-- buffer on the stack of the function that has returned, since `response.data` still points to it.
pub late_answer_hits_stack :
    (shim : Shim) (s : Loader) (n : ℕ) (rb : Rb)
    → s.late ≡ []
    → (shim (s.sent ++ start_message ∷ [])).sending ≡ ok n
    → (shim (s.sent ++ start_message ∷ [])).during ≡ []
    → (shim (s.sent ++ start_message ∷ [])).late ≡ rb ∷ []
    → IsAck rb
    → (t : Loader) × (ish_fw_start shim s ≡ done (err etimedout) t)
      × (loader_cl_event_cb t.late t ≡ dead_write)
unfolding ish_fw_start loader_cl_event_cb answer
late_answer_hits_stack shim s n rb l g d e a =
    let u = begun start_message (0 ∷ 0 ∷ 0 ∷ 0 ∷ []) 4 s in
    let r = shim u.sent in
    let t : Loader = frame_ends (record u { late = r.late }) in
    (
      t,
      ap (λ (x : Outcome Code). x >>= returning)
          (send_through shim start_message (0 ∷ 0 ∷ 0 ∷ 0 ∷ []) 4 s l n u g
            (ap (λ (x : List Rb). loader_cl_event_cb x u) d)),
      ap (λ (x : List Rb). loader_cl_event_cb x t) e
          ∙ ap (λ (x : Outcome (Unit {0})). x >>= (λ _ v. done tt v))
              (ack-dead_write rb t a refl refl refl),
    )
