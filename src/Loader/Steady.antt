-- ===== src/Loader/Steady.antt =====
-- The steps of a load, src/intel-ish-hid-linux-6.5/ishtp-fw-loader.c: they end, and leave the counter of the
-- retries and the hub's resets as they are.
use ubuntu_elkhart_lake_pse.Prelude.{
  ℕ, zero, suc, ◌+◌, ◌-◌, ◌<◌, ◌≡◌, refl, ◌∙◌, Bool, true, false, not, List, [], ◌∷◌, Option, none,
  some, arith, ltb, ◌==◌, length, take, drop, ◌⊎◌, inl, inr, if◌then◌else◌, get_or,
}
use ubuntu_elkhart_lake_pse.Ishtp.Types.{
  Errno, Code, ok, err, einval, ebadmsg, emsgsize, eproto, eio, Rb,
}
use ubuntu_elkhart_lake_pse.Loader.{
  Target, null, gone, buffer, Sent, Loader, Round, Shim, Outcome, done, dead_write, endless, ◌>>=◌,
  command_of, is_response, is_command, is_null, refused, copy_response, parse, process_recv,
  loader_cl_event_cb, begun, awaited, loader_cl_send,
}
use ubuntu_elkhart_lake_pse.Loader.Xfer.{Courier, xfer_loop}
use ubuntu_elkhart_lake_pse.Loader.Image.{last_at, size_at}

module _ (E : Type 0) where
  -- It ends, and leaves the counters as they were; or it goes on for ever, and there is the reason `E`.
  abbrev pub Steady : {A : Type 0} → Loader → Outcome A → Type 0
  Steady s (done a t) = (t.resets ≡ s.resets) × (t.retry_count ≡ s.retry_count)
  Steady s dead_write = Unit
  Steady s endless = E

  pub >>=-Steady :
      {A B : Type 0} (s : Loader) (m : Outcome A) (f : A → Loader → Outcome B)
      → Steady s m
      → ((a : A) (t : Loader) → Steady t (f a t))
      → Steady s (m >>= f)
  >>=-Steady {B = B} s (done a t) f (p, q) k = carry (f a t) (k a t)
    where
      carry : (o : Outcome B) → Steady t o → Steady s o
      carry (done b u) (x, y) = (x ∙ p, y ∙ q)
      carry dead_write h = tt
      carry endless h = h
  >>=-Steady s dead_write f h k = tt
  >>=-Steady s endless f h k = h

  pub if-Steady :
      {A : Type 0} (b : Bool) (s : Loader) (x y : Outcome A)
      → Steady s x
      → Steady s y
      → Steady s (if b then x else y)
  if-Steady true s x y h k = h
  if-Steady false s x y h k = k

  copy-Steady :
      (msg : List ℕ) (rb : Rb) (s : Loader) (v : Target) → Steady s (copy_response msg rb s v)
  unfolding copy_response
  copy-Steady msg rb s null = (refl, refl)
  copy-Steady msg rb s gone = tt
  copy-Steady msg rb s (buffer b) = (refl, refl)

  refused-Steady : (e : Errno) (rb : Rb) (s : Loader) → Steady s (refused e rb s)
  refused-Steady e rb s = (refl, refl)

  parse-Steady : (msg : List ℕ) (rb : Rb) (s : Loader) → Steady s (parse msg rb s)
  unfolding parse
  parse-Steady msg rb s = if-Steady (ltb rb.buf_idx 4) s _ _ (refused-Steady emsgsize rb s) (
      if-Steady (not (is_command (command_of msg))) s _ _ (refused-Steady eproto rb s) (
        if-Steady (ltb s.max_size rb.buf_idx) s _ _ (refused-Steady emsgsize rb s) (
          if-Steady (not (is_response msg)) s _ _ (refused-Steady eio rb s) (
            if-Steady (not (get_or msg 3 0 == 0)) s _ _ (refused-Steady eio rb s)
              (copy-Steady msg rb s s.target)))))

  process_recv-Steady : (rb : Rb) (s : Loader) → Steady s (process_recv rb s)
  unfolding process_recv
  process_recv-Steady rb s =
      if-Steady (is_null s.target) s _ _ (refused-Steady einval rb s)
        (if-Steady s.received s _ _ (refused-Steady einval rb s) (content rb.content))
    where
      content :
          (o : Option (List ℕ))
          → Steady s (elim o as (λ x. Outcome (Unit {0})) [
            | none ↦ refused ebadmsg rb s
            | some msg ↦ parse msg rb s
          ])
      content none = (refl, refl)
      content (some msg) = parse-Steady msg rb s

  event_cb-Steady : (rbs : List Rb) (s : Loader) → Steady s (loader_cl_event_cb rbs s)
  unfolding loader_cl_event_cb
  event_cb-Steady [] s = (refl, refl)
  event_cb-Steady (rb ∷ rbs) s =
      >>=-Steady s (process_recv rb s) (λ _ t. loader_cl_event_cb rbs t) (process_recv-Steady rb s)
        (λ _ t. event_cb-Steady rbs t)

  awaited-Steady : (r : Round) (s : Loader) (c : Code) → Steady s (awaited r s c)
  awaited-Steady r s (err e) = (refl, refl)
  awaited-Steady r s (ok n) =
      >>=-Steady s (loader_cl_event_cb r.during s) _ (event_cb-Steady r.during s)
        (λ _ t. (refl, refl))

  pub send-Steady :
      (shim : Shim) (out : Sent) (in_msg : List ℕ) (n : ℕ) (s : Loader)
      → Steady s (loader_cl_send shim out in_msg n s)
  unfolding loader_cl_send
  send-Steady shim out in_msg n s =
      >>=-Steady s (loader_cl_event_cb s.late s) _ (event_cb-Steady s.late s) (λ _ t.
        let u = begun out in_msg n t in awaited-Steady (shim u.sent) u (shim u.sent).sending)

  module _ (shim : Shim) (carry : Courier) (payload : ℕ) (image : List ℕ)
      (bounded : length image + payload < 4294967296) where
    -- The loop ends, whatever the hub does, if its pieces are not empty.
    pub xfer_loop-Steady :
        (fuel at : ℕ) (rv : Code) (s : Loader)
        → ((0 < payload) × (length image - at < fuel)) ⊎ E
        → Steady s (xfer_loop fuel shim carry payload image at rv s)
    unfolding xfer_loop
    xfer_loop-Steady zero at rv s (inl (some_payload, k)) = absurd (omega (arith, k))
    xfer_loop-Steady zero at rv s (inr e) = e
    xfer_loop-Steady (suc fuel) at rv s k =
        next (ltb at (length image)) refl
          (λ e n t. xfer_loop-Steady fuel (at + size_at payload image at) (ok n) t (left e k))
      where
        left :
            ltb at (length image) ≡ true
            → ((0 < payload) × (length image - at < suc fuel)) ⊎ E
            → ((0 < payload) × (length image - (at + size_at payload image at) < fuel)) ⊎ E
        left e (inl (p, l)) = inl (p, ground (arith, l, p, e))
        left e (inr r) = inr r

        sends : Outcome Code
        sends =
            loader_cl_send shim
              (carry at (size_at payload image at) (last_at payload image at)
                (take (size_at payload image at) (drop at image)))
              (0 ∷ 0 ∷ 0 ∷ 0 ∷ []) 4 s

        next :
            (b : Bool)
            → ltb at (length image) ≡ b
            → (ltb at (length image) ≡ true
                → (n : ℕ) (t : Loader)
                → Steady t (
                    xfer_loop fuel shim carry payload image
                      (at + size_at payload image at)
                      (ok n)
                      t))
            → Steady s (elim b as (λ x. Outcome Code) [
              | false ↦ done rv s
              | true ↦ sends >>= λ c t. elim c [
                | err e ↦ done (err e) (record t { flag_retry = true })
                | ok n ↦
                    xfer_loop fuel shim carry payload image (at + size_at payload image at) (ok n) t
              ]
            ])
        next false e rest = (refl, refl)
        next true e rest = >>=-Steady s sends _ (send-Steady shim _ _ 4 s) by_code
          where
            by_code :
                (c : Code) (t : Loader)
                → Steady t (elim c as (λ x. Outcome Code) [
                  | err e ↦ done (err e) (record t { flag_retry = true })
                  | ok n ↦
                      xfer_loop fuel shim carry payload image
                        (at + size_at payload image at)
                        (ok n)
                        t
                ])
            by_code (err f) t = (refl, refl)
            by_code (ok n) t = rest e n t
