-- ===== src/Loader/Load.antt =====
-- A load of the firmware as a whole and its retries, src/intel-ish-hid-linux-6.5/ishtp-fw-loader.c.
use ubuntu_elkhart_lake_pse.Prelude.{
  ℕ, zero, suc, ◌+◌, Bool, true, false, not, List, Option, ltb, if◌then◌else◌,
}
use ubuntu_elkhart_lake_pse.Ishtp.Types.{Errno, Code, ok, err, einval, enomem}
use ubuntu_elkhart_lake_pse.Loader.{Loader, Shim, Outcome, done, endless, ◌>>=◌}
use ubuntu_elkhart_lake_pse.Loader.Xfer.{
  Capability, has_dma, has_ishtp, ish_query_loader_prop, ish_fw_xfer_ishtp, ish_fw_xfer_direct_dma,
  ish_fw_start,
}

-- What the kernel answers: the allocation of the file name, the name of the variant, the request for the
-- file, the allocations for the two transfers, and the parameter of the module.
pub record Kernel : Type 0 where
  pub filename : Bool
  pub variant : Code
  pub request_firmware : Code
  pub image : List ℕ
  pub fragment_buf : Bool
  pub dma_alloc : ℕ → Option ℕ
  pub dma_buf_size_limit : ℕ

-- MAX_LOAD_ATTEMPTS
abbrev pub max_load_attempts : ℕ
max_load_attempts = 3

-- `end_error`: the hub is reset if the failure is one to be retried.
unfoldable pub give_up : Errno → Loader → Outcome Code
give_up e s =
    if not s.flag_retry
    then done (err e) s
    else if ltb s.retry_count max_load_attempts
    then done (err e) (record s { retry_count = s.retry_count + 1; resets = s.resets + 1 })
    else done (err e) (record s { retry_count = s.retry_count + 1 })

-- Success goes on, an error to `end_error`.
abbrev pub or_give_up : (Loader → Outcome Code) → Code → Loader → Outcome Code
or_give_up next (err e) s = give_up e s
or_give_up next (ok n) s = next s

unfoldable pub transfer : Kernel → Shim → Capability → Loader → Outcome Code
unfolding ish_fw_xfer_ishtp ish_fw_xfer_direct_dma
transfer k shim c s =
    if has_dma c.xfer_mode
    then ish_fw_xfer_direct_dma k.dma_alloc k.dma_buf_size_limit shim k.image c s
    else if has_ishtp c.xfer_mode
    then ish_fw_xfer_ishtp k.fragment_buf shim k.image s
    else done (err einval) s

unfoldable pub start : Shim → Loader → Outcome Code
unfolding ish_fw_start give_up
start shim s = ish_fw_start shim s >>= or_give_up (done (ok 0))

unfoldable pub after_query : Kernel → Shim → Code × Capability → Loader → Outcome Code
unfolding transfer start give_up
after_query k shim (err e, c) s = give_up e s
after_query k shim (ok n, c) s = transfer k shim c s >>= or_give_up (start shim)

unfoldable pub load_fw_from_host : Kernel → Shim → Loader → Outcome Code
unfolding after_query ish_query_loader_prop give_up
load_fw_from_host k shim s =
    let t = record s { flag_retry = false } in
    if not k.filename then give_up enomem (record t { flag_retry = true }) else elim k.variant [
      | err e ↦ give_up e t
      | ok n ↦ elim k.request_firmware [
        | err e ↦ give_up e t
        | ok m ↦ ish_query_loader_prop shim k.image t >>= after_query k shim
      ]
    ]

-- A reset of the hub ends in `reset_handler`, which loads once more. Each attempt has its own answers of
-- the kernel and of the hub; the fuel bounds the attempts.
unfoldable pub load_until : ℕ → (ℕ → Kernel) → (ℕ → Shim) → ℕ → Loader → Outcome Code
unfolding load_fw_from_host
load_until zero k shim i s = endless
load_until (suc fuel) k shim i s = load_fw_from_host (k i) (shim i) s >>= λ c t.
    elim (ltb s.resets t.resets) [ false ↦ done c t | true ↦ load_until fuel k shim (i + 1) t ]
