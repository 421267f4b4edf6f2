-- ===== src/Loader/Exchange.antt =====
-- One exchange of a command for its response, src/intel-ish-hid-linux-6.5/ishtp-fw-loader.c.
use ubuntu_elkhart_lake_pse.Prelude.{
  ℕ, ◌≤◌, ◌≡◌, ◌≢◌, refl, ap, ◌∙◌, true, false, List, [], ◌∷◌, ◌++◌, some, arith, get_or, memcpy,
}
use ubuntu_elkhart_lake_pse.Ishtp.Types.{Code, ok, err, eio, etimedout, Rb}
use ubuntu_elkhart_lake_pse.Loader.{
  buffer, Sent, Loader, Round, Shim, Outcome, done, ◌>>=◌, command_of, is_response, is_command,
  copy_response, parse, process_recv, loader_cl_event_cb, recycle, answer, begun, awaited,
  loader_cl_send,
}

-- A message of four bytes that says that the command was carried out.
abbrev pub IsAck : Rb → Type 0
IsAck rb =
    (msg : List ℕ) × (rb.content ≡ some msg)
    × (rb.buf_idx ≡ 4)
    × (is_command (command_of msg) ≡ true)
    × (is_response msg ≡ true)
    × (get_or msg 3 0 ≡ 0)

-- The command is sent, and one such message comes for it.
abbrev pub IsAcked : Round → Type 0
IsAcked r =
    (n : ℕ) × (rb : Rb) × (r.sending ≡ ok n) × (r.during ≡ rb ∷ []) × (r.late ≡ []) × IsAck rb

ack_received :
    (rb : Rb) (b : List ℕ) (s : Loader)
    → IsAck rb
    → s.target ≡ buffer b
    → s.received ≡ false
    → s.max_size ≡ 4
    → (t : Loader) × (process_recv rb s ≡ done tt t)
      × (t.received ≡ true)
      × (t.size ≡ 4)
      × (t.error ≡ s.error)
      × (t.sent ≡ s.sent)
unfolding process_recv parse copy_response
ack_received rb b s (msg, c, n, k, r, z) e f m = (
  recycle rb
      (record s { size = rb.buf_idx; target = buffer (memcpy b msg rb.buf_idx); received = true }),
  ground arith,
  refl,
  n,
  refl,
  refl,
)

-- The end of an exchange in which one message comes.
abbrev ends : Round → Unit {0} → Loader → Outcome Code
ends r _ t = done (answer t) (record t { late = r.late })

module _ (shim : Shim) (out_msg : Sent) (in_msg : List ℕ) (in_size : ℕ) (s : Loader)
    (l : s.late ≡ []) where
  abbrev pub now : Loader
  now = begun out_msg in_msg in_size s

  abbrev pub round : Round
  round = shim (s.sent ++ out_msg ∷ [])

  -- The messages that come before the end of the wait are handled.
  pub send_through :
      (n : ℕ) (t : Loader)
      → round.sending ≡ ok n
      → loader_cl_event_cb round.during now ≡ done tt t
      → loader_cl_send shim out_msg in_msg in_size s
        ≡ done (answer t) (record t { late = round.late })
  unfolding loader_cl_send loader_cl_event_cb
  send_through n t g p =
      ap
        (λ (x : List Rb). loader_cl_event_cb x s >>= λ _ t.
          let u = begun out_msg in_msg in_size t in awaited (shim u.sent) u (shim u.sent).sending)
        l
      ∙ ap (awaited round now) g
      ∙ ap (λ (x : Outcome (Unit {0})). x >>= ends round) p

  send_one :
      (n : ℕ) (rb : Rb) (t : Loader)
      → round.sending ≡ ok n
      → round.during ≡ rb ∷ []
      → process_recv rb now ≡ done tt t
      → loader_cl_send shim out_msg in_msg in_size s
        ≡ done (answer t) (record t { late = round.late })
  unfolding loader_cl_event_cb
  send_one n rb t g d p = send_through n t g (
      ap (λ (x : List Rb). loader_cl_event_cb x now) d
      ∙ ap (λ (x : Outcome (Unit {0})). x >>= (λ _ t. done tt t)) p)

answer_received :
    (t : Loader) (k n : ℕ) → t.received ≡ true → t.error ≡ ok k → t.size ≡ n → answer t ≡ ok n
unfolding answer
answer_received t k n a b c = ground arith

-- An exchange that the hub answers so: four bytes have come, and one message more was sent.
pub send_acked :
    (shim : Shim) (out_msg : Sent) (in_msg : List ℕ) (s : Loader)
    → s.late ≡ []
    → IsAcked (shim (s.sent ++ out_msg ∷ []))
    → (t : Loader) × (loader_cl_send shim out_msg in_msg 4 s ≡ done (ok 4) t)
      × (t.sent ≡ s.sent ++ out_msg ∷ [])
      × (t.late ≡ [])
send_acked shim out_msg in_msg s l (n, rb, g, d, e, k) =
    let u = begun out_msg in_msg 4 s in
    let (t, p, a, b, c, f) = ack_received rb in_msg u k refl refl refl in
    let r = shim u.sent in
    (
      record t { late = r.late },
      send_one shim out_msg in_msg 4 s l n rb t g d p
          ∙ ap (λ x. done x (record t { late = r.late })) (answer_received t 0 4 a c b),
      f,
      e,
    )

-- A message that the hub sends to refuse a command.
abbrev pub IsRefusal : ℕ → Rb → Type 0
IsRefusal max_size rb =
    (msg : List ℕ) × (rb.content ≡ some msg)
    × (4 ≤ rb.buf_idx)
    × (rb.buf_idx ≤ max_size)
    × (is_command (command_of msg) ≡ true)
    × (is_response msg ≡ true)
    × (get_or msg 3 0 ≢ 0)

-- A command that the hub refuses, with a response whose status is an error, is not answered to the
-- driver: the sender waits until its time is over and gets -ETIMEDOUT, while the error -EIO stays in
-- `response.error`, where nobody reads it.
pub refusal_times_out :
    (shim : Shim) (out_msg : Sent) (in_msg : List ℕ) (in_size n : ℕ) (rb : Rb) (s : Loader)
    → s.late ≡ []
    → (shim (s.sent ++ out_msg ∷ [])).sending ≡ ok n
    → (shim (s.sent ++ out_msg ∷ [])).during ≡ rb ∷ []
    → IsRefusal in_size rb
    → (t : Loader) × (loader_cl_send shim out_msg in_msg in_size s ≡ done (err etimedout) t)
      × (t.error ≡ err eio)
unfolding answer process_recv parse
refusal_times_out shim out_msg in_msg in_size n rb s l g d (msg, c, k, m, a, b, z) =
    let u = begun out_msg in_msg in_size s in
    let t : Loader = recycle rb (record u { error = err eio }) in
    let p : process_recv rb u ≡ done tt t = ground arith in
    (
      record t { late = (shim u.sent).late },
      send_one shim out_msg in_msg in_size s l n rb t g d p,
      refl,
    )
