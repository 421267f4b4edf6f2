-- ===== src/Pse/Ioctl.antt =====
-- The connection request of /dev/pse in src/pse.c.
use ubuntu_elkhart_lake_pse.Prelude.{ℕ, Bool, not, ◌||◌, List, []}
use ubuntu_elkhart_lake_pse.Ishtp.Types.{
  Code, err, eperm, einval, enodev, ebusy, enoent, is_enabled, is_initializing, is_disconnected,
  cl_connecting, FwClient,
}
use ubuntu_elkhart_lake_pse.Pse.Types.{
  Bus, M, ◌>>=◌, ◌>>◌, pure, get_pse, ask, bus_do, call, deref, if◌then◌else◌, if_some, if_ok,
}
use ubuntu_elkhart_lake_pse.Pse.File.{check_alloc}

-- `struct ishtp_cc_data`, a union: the request holds a UUID, the answer the client's properties.
pub data CcData : Type 0 where
  in_client_uuid : List ℕ → CcData
  out_client_props : ℕ → ℕ → CcData

-- The bytes of the UUID in a request.
abbrev pub uuid_of : CcData → List ℕ
uuid_of (in_client_uuid u) = u
uuid_of (out_client_props m v) = []

module _ {S : Type 0} (b : Bus S) where
  connect_to : ℕ → FwClient → M S (Code × CcData)
  connect_to p fw_client = do
    bus_do (b.set_fw_client_id p fw_client.client_id)
    bus_do (b.set_cl_state p cl_connecting)
    ret ← call (b.ishtp_cl_connect p)
    pure (ret, out_client_props fw_client.max_msg_length fw_client.protocol_version)

  -- Returns the code and the request's memory, in which the answer is built. `ishtp_dev` is whether this
  -- pointer is set.
  unfoldable pub ishtp_pse_ioctl_cc : Bool → CcData → M S (Code × CcData)
  unfolding check_alloc connect_to
  ishtp_pse_ioctl_cc ishtp_dev request =
      check_alloc b (err enodev, request)
        λ p. if not ishtp_dev then pure (err enodev, request) else do
          deref b p
          ds ← ask b.dev_state
          cs ← ask (b.cl_state p)
          if not (is_enabled ds)
              then pure (err enodev, request)
              else (if not (is_initializing cs || is_disconnected cs)
                  then pure (err ebusy, request)
                  else do
                    o ← ask (b.ishtp_fw_cl_get_client (uuid_of request))
                    if_some o (connect_to p) (pure (err enoent, request)))

  -- `admin` is `capable(CAP_SYS_ADMIN)`, `connect` whether the command is
  -- IOCTL_ISHTP_CONNECT_CLIENT, and `memdup` the outcome of `memdup_user`. The answer stays in the
  -- duplicate. The device of the client is that of the client device, by `ishtp_cl_allocate`.
  unfoldable pub ishtp_pse_ioctl : Bool → Bool → Code × CcData → M S Code
  unfolding check_alloc ishtp_pse_ioctl_cc
  ishtp_pse_ioctl admin connect memdup =
      if not admin
      then pure (err eperm)
      else check_alloc b (err enodev) λ p.
        if not connect
        then pure (err einval)
        else if_ok memdup.0 (do d ← get_pse; r ← ishtp_pse_ioctl_cc d.ishtp_dev memdup.1; pure r.0)
            (λ e. pure (err e))
