-- ===== src/Ishtp/Connect/Leak.antt =====
-- A connection that is not closed, src/intel-ish-hid-linux-6.5/ishtp/client.c.
use ubuntu_elkhart_lake_pse.Prelude.{
  ◌≡◌, refl, sym, ap, ◌∙◌, ℕ, suc, ◌+◌, ◌-◌, ◌≤◌, List, [], ◌∷◌, Bool, Bool-cases, Option-cases,
  ◌||◌, inl, inr, false, not, if◌then◌else◌, Option, none, some, arith, ◌==◌,
}
use mathlib.Core.Path.{subst}
use ubuntu_elkhart_lake_pse.Ishtp.Types.{
  Code, ok, err, efault, enoent, ClDevice, FwClient, Device, cl_connected, enabled, is_enabled,
  is_connected, Client, World, Sys,
}
use ubuntu_elkhart_lake_pse.Ishtp.Recv.{update}
use ubuntu_elkhart_lake_pse.Ishtp.Hbm.{ishtp_hbm_cl_connect_req}
use ubuntu_elkhart_lake_pse.Ishtp.Rings.{
  ishtp_cl_alloc_rx_ring, ishtp_cl_alloc_tx_ring, ishtp_cl_free_rx_ring, ishtp_cl_read_start,
}
use ubuntu_elkhart_lake_pse.Ishtp.Rings.Alloc.{
  alloc_rx_ring_state, alloc_tx_ring_state, free_rx_ring_state, read_start_state,
}
use ubuntu_elkhart_lake_pse.Ishtp.Connect.{
  instead, ishtp_cl_disconnect, give_up, put, tx_allocated, rx_allocated, max_length, max_length_at,
  device_for, with_length, bind_to, bound, with_status, finish_connect, ishtp_cl_device_bind,
  is_other_connecting, connect_client, unless_busy, asked_to_connect, ishtp_cl_connect,
}

update_self : (heap : ℕ → Option Client) (p : ℕ) (v : Option Client) → update heap p v p ≡ v
update_self heap p v = ground arith

-- Disconnecting a client that is connected does nothing, and is a success.
disconnect_connected :
    (wait : World → World) (p : ℕ) (w : World) (c : Client)
    → w.heap p ≡ some c
    → c.state ≡ cl_connected
    → ishtp_cl_disconnect wait p w ≡ some (ok 0, w)
unfolding ishtp_cl_disconnect
disconnect_connected wait p w c h s = ground (arith, h, s)

give_up_connected :
    (wait : World → World) (p : ℕ) (rets : Code) (w : World) (c : Client)
    → w.heap p ≡ some c
    → c.state ≡ cl_connected
    → give_up wait p rets w ≡ some (rets, w)
unfolding give_up
give_up_connected wait p rets w c h s = ap (instead rets) (disconnect_connected wait p w c h s)

-- The client is in memory, and connected.
abbrev pub StaysConnected : ℕ → Option (Code × World) → Type 0
StaysConnected p none = ⊥
StaysConnected p (some (r, w)) = (c : Client) × (w.heap p ≡ some c) × (c.state ≡ cl_connected)

given_up :
    (wait : World → World) (p : ℕ) (rets : Code) (w : World) (s : Sys)
    → s.cl.state ≡ cl_connected
    → StaysConnected p (give_up wait p rets (put w p s))
given_up wait p rets w s e =
    let at : (put w p s).heap p ≡ some s.cl = update_self w.heap p (some s.cl) in
    subst (StaysConnected p) (sym (give_up_connected wait p rets (put w p s) s.cl at e))
      (s.cl, at, e)

after_tx :
    (wait : World → World) (p : ℕ) (w : World) (r : Code) (s : Sys)
    → s.cl.state ≡ cl_connected
    → StaysConnected p (tx_allocated wait p w (r, s))
after_tx wait p w (err e) s c =
    given_up wait p (err e) w (record s { cl = ishtp_cl_free_rx_ring s.cl })
      (free_rx_ring_state s.cl ∙ c)
after_tx wait p w (ok n) s c =
    let t = (ishtp_cl_read_start s).1 in
    (t.cl, update_self w.heap p (some t.cl), read_start_state s ∙ c)

after_rx :
    (wait : World → World) (p : ℕ) (w : World) (len : ℕ) (r : Code) (s : Sys)
    → s.cl.state ≡ cl_connected
    → StaysConnected p (rx_allocated wait p w len (r, s))
after_rx wait p w len (err e) s c = given_up wait p (err e) w s c
after_rx wait p w len (ok n) s c =
    let t = ishtp_cl_alloc_tx_ring s len in
    after_tx wait p w t.0 t.1 (alloc_tx_ring_state s len ∙ c)

shift :
    (d : ClDevice) (ds : List ClDevice) (k j : ℕ)
    → (len : ℕ) × (max_length_at ds (j - (k + 1)) ≡ some len) × (k + 1 ≤ j)
    → (len : ℕ) × (max_length_at (d ∷ ds) (j - k) ≡ some len) × (k ≤ j)
unfolding max_length_at
shift d ds k j (len, m, le) =
    let step : j - k ≡ suc (j - (k + 1)) = omega arith in (len, rw step m, omega arith)

at_once :
    (d : ClDevice) (ds : List ClDevice) (fw : FwClient) (k j : ℕ)
    → d.fw_client ≡ some fw
    → k ≡ j
    → (len : ℕ) × (max_length_at (d ∷ ds) (j - k) ≡ some len) × (k ≤ j)
unfolding max_length_at
at_once d ds fw k j e f =
    let none_between : j - k ≡ 0 = omega arith in
    (fw.max_msg_length, rw (none_between, e) refl, omega arith)

-- A device that was found stands for a client of the firmware.
device_for_lem :
    (ds : List ClDevice) (id k j : ℕ)
    → device_for ds id k ≡ some j
    → (len : ℕ) × (max_length_at ds (j - k) ≡ some len) × (k ≤ j)
unfolding device_for
device_for_lem [] id k j e = absurd (ground (arith, e))
device_for_lem (d ∷ ds) id k j e =
    let ih = λ (f : device_for ds id (k + 1) ≡ some j).
      shift d ds k j (device_for_lem ds id (k + 1) j f) in
    elim (Option-cases d.fw_client) [
      | inl no_client ↦ ih (rw no_client at e)
      | inr (fw, client) ↦ elim (Bool-cases (fw.client_id == id)) [
        | inl same_id ↦ at_once d ds fw k j client (cc (rw (client, same_id) at e))
        | inr other_id ↦ ih (rw (client, other_id) at e)
      ]
    ]

after_length :
    (wait : World → World) (p : ℕ) (w : World) (n : ℕ) (s : Sys) (len : ℕ)
    → max_length s ≡ some len
    → s.cl.state ≡ cl_connected
    → StaysConnected p (bound wait p w (ok n, s))
after_length wait p w n s len e c =
    let t = ishtp_cl_alloc_rx_ring s len in
    subst (λ o. StaysConnected p (with_length wait p w s o)) (sym e)
      (after_rx wait p w len t.0 t.1 (alloc_rx_ring_state s len ∙ c))

device_length :
    (s : Sys) (k len : ℕ)
    → max_length_at s.dev.device_list (k - 0) ≡ some len
    → max_length (record s { cl = record (s.cl) { device = some k } }) ≡ some len
unfolding max_length
device_length s k len m = let same : k - 0 ≡ k = omega arith in rw same at m

bind_to_connected :
    (wait : World → World) (p : ℕ) (w : World) (s : Sys) (o : Option ℕ)
    → device_for s.dev.device_list s.cl.fw_client_id 0 ≡ o
    → s.cl.state ≡ cl_connected
    → StaysConnected p (bound wait p w (bind_to s o))
bind_to_connected wait p w s none e c = given_up wait p (err enoent) w s c
bind_to_connected wait p w s (some k) e c =
    let (len, m, le) = device_for_lem s.dev.device_list s.cl.fw_client_id 0 k e in
    after_length wait p w 0 (record s { cl = record (s.cl) { device = some k } }) len
      (device_length s k len m) c

-- What the binding leaves.
after_bind :
    (wait : World → World) (p : ℕ) (w : World) (s : Sys)
    → s.cl.state ≡ cl_connected
    → StaysConnected p (bound wait p w (ishtp_cl_device_bind s))
unfolding ishtp_cl_device_bind
after_bind wait p w s c =
    elim (Bool-cases (s.cl.fw_client_id == 0 || not (is_connected s.cl.state))) [
      | inl e ↦ rw e (given_up wait p (err efault) w s c)
      | inr e ↦
          rw e
            (bind_to_connected wait p w s (device_for s.dev.device_list s.cl.fw_client_id 0) refl c)
    ]

if_false : {A : Type 0} {b : Bool} (x y : A) → b ≡ false → (if b then x else y) ≡ y
if_false x y e = rw e refl

accepted_step :
    (wait : World → World) (p : ℕ) (w : World) (c : Client)
    → w.heap p ≡ some c
    → not (is_enabled w.dev.dev_state) ≡ false
    → not (is_connected c.state) ≡ false
    → c.status ≡ ok 0
    → finish_connect wait p w ≡ with_status wait p w c (ok 0)
unfolding finish_connect
accepted_step wait p w c at up connected good =
    rw (up, at)
      (if_false (some (err efault, w)) (with_status wait p w c c.status) connected
        ∙ ap (with_status wait p w c) good)

accepted :
    (wait : World → World) (p : ℕ) (w : World) (c : Client)
    → w.dev.dev_state ≡ enabled
    → w.heap p ≡ some c
    → c.state ≡ cl_connected
    → c.status ≡ ok 0
    → finish_connect wait p w
      ≡ bound wait p w (ishtp_cl_device_bind (record { dev = w.dev; cl = c }))
unfolding finish_connect
accepted wait p w c up at connected good =
    accepted_step wait p w c at (ap (λ d. not (is_enabled d)) up)
      (ap (λ d. not (is_connected d)) connected) good

finish_connect_leaks :
    (wait : World → World) (p : ℕ) (w : World) (c : Client)
    → w.dev.dev_state ≡ enabled
    → w.heap p ≡ some c
    → c.state ≡ cl_connected
    → c.status ≡ ok 0
    → StaysConnected p (finish_connect wait p w)
finish_connect_leaks wait p w c up at connected good =
    subst (StaysConnected p) (sym (accepted wait p w c up at connected good))
      (after_bind wait p w (record { dev = w.dev; cl = c }) connected)

sent_request :
    (wait : World → World) (p : ℕ) (w : World) (c : Client)
    → w.heap p ≡ some c
    → is_other_connecting w.heap p c w.dev.cl_list ≡ some false
    → ishtp_cl_connect wait p w ≡ asked_to_connect wait p w (ishtp_hbm_cl_connect_req w.dev c)
unfolding ishtp_cl_connect
sent_request wait p w c h o = ap (connect_client wait p w) h ∙ ap (unless_busy wait p w c) o

-- If the request was sent, and after the wait the device is enabled and the firmware has accepted the
-- connection, then `ishtp_cl_connect` returns and leaves the client connected, whatever it returns: also
-- if the client cannot be bound to a device or gets no buffers, where it means to disconnect it.
pub connect_leaks :
    (wait : World → World) (p n : ℕ) (w : World) (b c : Client) (dev : Device)
    → w.heap p ≡ some b
    → is_other_connecting w.heap p b w.dev.cl_list ≡ some false
    → ishtp_hbm_cl_connect_req w.dev b ≡ (ok n, dev)
    → (wait (record w { dev = dev })).dev.dev_state ≡ enabled
    → (wait (record w { dev = dev })).heap p ≡ some c
    → c.state ≡ cl_connected
    → c.status ≡ ok 0
    → StaysConnected p (ishtp_cl_connect wait p w)
connect_leaks wait p n w b c dev h o sent up at connected good =
    subst (StaysConnected p)
      (sym (sent_request wait p w b h o ∙ ap (asked_to_connect wait p w) sent))
      (finish_connect_leaks wait p (wait (record w { dev = dev })) c up at connected good)
