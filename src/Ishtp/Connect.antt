-- ===== src/Ishtp/Connect.antt =====
-- Connecting and disconnecting a client, src/intel-ish-hid-linux-6.5/ishtp/client.c, and its binding to a
-- device, ishtp/bus.c. `wait` is what others do while the driver waits for the firmware's answer. A
-- `none` is a use of freed memory or of a client with no device.
pub mod Leak
use ubuntu_elkhart_lake_pse.Prelude.{
  ℕ, zero, suc, ◌+◌, Bool, true, false, not, ◌&&◌, ◌||◌, List, [], ◌∷◌, Option, none, some, ◌==◌,
  if◌then◌else◌,
}
use ubuntu_elkhart_lake_pse.Ishtp.Types.{
  Code, ok, err, ebusy, efault, enodev, enoent, is_enabled, is_connected, is_connecting,
  is_disconnected, is_disconnecting, Client, ClDevice, Device, FwClient, World, Sys,
}
use ubuntu_elkhart_lake_pse.Ishtp.Hbm.{ishtp_hbm_cl_connect_req, ishtp_hbm_cl_disconnect_req}
use ubuntu_elkhart_lake_pse.Ishtp.Rings.{
  ishtp_cl_alloc_rx_ring, ishtp_cl_alloc_tx_ring, ishtp_cl_free_rx_ring, ishtp_cl_read_start,
}
use ubuntu_elkhart_lake_pse.Ishtp.Recv.{update}

-- The first device, from index `k` on, that stands for this client of the firmware.
unfoldable pub device_for : List ClDevice → ℕ → ℕ → Option ℕ
device_for [] id k = none
device_for (d ∷ ds) id k =
    let rest = device_for ds id (k + 1) in
    elim d.fw_client [ none ↦ rest | some fw ↦ if fw.client_id == id then some k else rest ]

abbrev pub bind_to : Sys → Option ℕ → Code × Sys
bind_to s none = (err enoent, s)
bind_to s (some k) = (ok 0, record s { cl = record (s.cl) { device = some k } })

unfoldable pub ishtp_cl_device_bind : Sys → Code × Sys
unfolding device_for
ishtp_cl_device_bind s =
    if s.cl.fw_client_id == 0 || not (is_connected s.cl.state)
    then (err efault, s)
    else bind_to s (device_for s.dev.device_list s.cl.fw_client_id 0)

-- `cl->device->fw_client->props.max_msg_length`
unfoldable pub max_length_at : List ClDevice → ℕ → Option ℕ
max_length_at [] k = none
max_length_at (d ∷ ds) zero = elim d.fw_client [ none ↦ none | some fw ↦ some fw.max_msg_length ]
max_length_at (d ∷ ds) (suc k) = max_length_at ds k

unfoldable pub max_length : Sys → Option ℕ
unfolding max_length_at
max_length s = elim s.cl.device [ none ↦ none | some k ↦ max_length_at s.dev.device_list k ]

-- Another client that is connecting to the same client of the firmware; clients are their addresses.
unfoldable pub is_other_connecting : (ℕ → Option Client) → ℕ → Client → List ℕ → Option Bool
is_other_connecting heap p cl [] = some false
is_other_connecting heap p cl (q ∷ qs) =
    let rest = is_other_connecting heap p cl qs in
    elim (heap q) [
      | none ↦ none
      | some pos ↦
          if is_connecting pos.state && (not (p == q) && cl.fw_client_id == pos.fw_client_id)
          then some true
          else rest
    ]

abbrev pub put : World → ℕ → Sys → World
put w p s = record w { dev = s.dev; heap = update w.heap p (some s.cl) }

-- After the wait.
abbrev pub disconnected : ℕ → World → Option (Code × World)
disconnected p w =
    if not (is_enabled w.dev.dev_state) then some (err enodev, w) else elim (w.heap p) [
      | none ↦ none
      | some c ↦ some (if is_disconnected c.state then ok 0 else err enodev, w)
    ]

abbrev pub asked_to_disconnect : (World → World) → ℕ → World → Code × Device → Option (Code × World)
asked_to_disconnect wait p w (err e, dev) = some (err enodev, record w { dev = dev })
asked_to_disconnect wait p w (ok n, dev) = disconnected p (wait (record w { dev = dev }))

unfoldable pub ishtp_cl_disconnect : (World → World) → ℕ → World → Option (Code × World)
ishtp_cl_disconnect wait p w = elim (w.heap p) [
  | none ↦ none
  | some c ↦
      if not (is_disconnecting c.state)
      then some (ok 0, w)
      else asked_to_disconnect wait p w (ishtp_hbm_cl_disconnect_req w.dev c)
]

abbrev pub instead : Code → Option (Code × World) → Option (Code × World)
instead rets none = none
instead rets (some (r, w)) = some (rets, w)

-- The connection is of no use: the result of the disconnection is ignored.
unfoldable pub give_up : (World → World) → ℕ → Code → World → Option (Code × World)
unfolding ishtp_cl_disconnect
give_up wait p rets w = instead rets (ishtp_cl_disconnect wait p w)

abbrev pub tx_allocated : (World → World) → ℕ → World → Code × Sys → Option (Code × World)
tx_allocated wait p w (err e, s) =
    give_up wait p (err e) (put w p (record s { cl = ishtp_cl_free_rx_ring s.cl }))
tx_allocated wait p w (ok n, s) = let (rets, t) = ishtp_cl_read_start s in some (rets, put w p t)

abbrev pub rx_allocated : (World → World) → ℕ → World → ℕ → Code × Sys → Option (Code × World)
rx_allocated wait p w len (err e, s) = give_up wait p (err e) (put w p s)
rx_allocated wait p w len (ok n, s) = tx_allocated wait p w (ishtp_cl_alloc_tx_ring s len)

abbrev pub with_length : (World → World) → ℕ → World → Sys → Option ℕ → Option (Code × World)
with_length wait p w s none = none
with_length wait p w s (some len) = rx_allocated wait p w len (ishtp_cl_alloc_rx_ring s len)

abbrev pub bound : (World → World) → ℕ → World → Code × Sys → Option (Code × World)
bound wait p w (err e, s) = give_up wait p (err e) (put w p s)
bound wait p w (ok n, s) = with_length wait p w s (max_length s)

-- What the firmware answered.
abbrev pub with_status : (World → World) → ℕ → World → Client → Code → Option (Code × World)
with_status wait p w c (err e) = some (err e, w)
with_status wait p w c (ok n) =
    bound wait p w (ishtp_cl_device_bind (record { dev = w.dev; cl = c }))

unfoldable pub finish_connect : (World → World) → ℕ → World → Option (Code × World)
unfolding give_up ishtp_cl_device_bind max_length
finish_connect wait p w =
    if not (is_enabled w.dev.dev_state) then some (err efault, w) else elim (w.heap p) [
      | none ↦ none
      | some c ↦
          if not (is_connected c.state)
          then some (err efault, w)
          else with_status wait p w c c.status
    ]

abbrev pub asked_to_connect : (World → World) → ℕ → World → Code × Device → Option (Code × World)
asked_to_connect wait p w (err e, dev) = some (err enodev, record w { dev = dev })
asked_to_connect wait p w (ok n, dev) = finish_connect wait p (wait (record w { dev = dev }))

abbrev pub unless_busy : (World → World) → ℕ → World → Client → Option Bool → Option (Code × World)
unless_busy wait p w c none = none
unless_busy wait p w c (some true) = some (err ebusy, w)
unless_busy wait p w c (some false) = asked_to_connect wait p w (ishtp_hbm_cl_connect_req w.dev c)

abbrev pub connect_client : (World → World) → ℕ → World → Option Client → Option (Code × World)
connect_client wait p w none = none
connect_client wait p w (some c) =
    unless_busy wait p w c (is_other_connecting w.heap p c w.dev.cl_list)

unfoldable pub ishtp_cl_connect : (World → World) → ℕ → World → Option (Code × World)
unfolding finish_connect is_other_connecting
ishtp_cl_connect wait p w = connect_client wait p w (w.heap p)
