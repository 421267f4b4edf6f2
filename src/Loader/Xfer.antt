-- ===== src/Loader/Xfer.antt =====
-- The three steps of a load, src/intel-ish-hid-linux-6.5/ishtp-fw-loader.c: the query, the transfer of the image
-- over ISHTP or by DMA, and the start. The size of the image fits 32 bits.
use ubuntu_elkhart_lake_pse.Prelude.{
  ℕ, zero, suc, ◌+◌, ◌-◌, ◌/◌, ◌%◌, min, Bool, true, false, not, ◌&&◌, List, [], ◌∷◌, ◌++◌, Option,
  none, some, ltb, ◌==◌, if◌then◌else◌, take, drop, length,
}
use ubuntu_elkhart_lake_pse.Prelude.Bytes.{le_bytes, from_le}
use ubuntu_elkhart_lake_pse.Ishtp.Types.{Code, ok, err, einval, emsgsize, enospc, enomem}
use ubuntu_elkhart_lake_pse.Ishtp.Startup.Exchange.{replicate}
use ubuntu_elkhart_lake_pse.Loader.{
  loader_cmd_xfer_query, loader_cmd_xfer_fragment, loader_cmd_start, Sent, Loader, Shim, Outcome,
  done, endless, ◌>>=◌, null, gone, buffer, loader_cl_send, frame_ends,
}

-- `struct loader_capability`, the part of `struct shim_fw_info` that the driver uses.
pub record Capability : Type 0 where
  pub max_fw_image_size : ℕ
  pub xfer_mode : ℕ
  pub max_dma_buf_size : ℕ

-- At byte 20 of the response: after the header, the version of the firmware, that of the protocol and
-- that of the loader.
unfoldable pub capability : List ℕ → Capability
unfolding from_le
capability resp = record {
  max_fw_image_size = from_le (take 4 (drop 20 resp));
  xfer_mode = from_le (take 4 (drop 24 resp));
  max_dma_buf_size = from_le (take 4 (drop 28 resp));
}

abbrev pub no_capability : Capability
no_capability = record { max_fw_image_size = 0; xfer_mode = 0; max_dma_buf_size = 0 }

-- What the buffer of the running function holds.
abbrev pub response_of : Loader → List ℕ
response_of s = elim s.target [ null ↦ [] | gone ↦ [] | buffer b ↦ b ]

-- LOADER_XFER_MODE_DIRECT_DMA and LOADER_XFER_MODE_ISHTP
abbrev pub has_dma : ℕ → Bool
has_dma xfer_mode = xfer_mode % 2 == 1

abbrev pub has_ishtp : ℕ → Bool
has_ishtp xfer_mode = xfer_mode / 2 % 2 == 1

-- L1_CACHE_BYTES, and the boundary at or before a size.
abbrev pub l1_cache_bytes : ℕ
l1_cache_bytes = 64

-- The checks of the response. An unset `fw_info` is all zero.
unfoldable pub checked : ℕ → Code → Loader → Outcome (Code × Capability)
unfolding capability
checked image_size (err e) s = done (err e, no_capability) (record s { flag_retry = true })
checked image_size (ok rv) s =
    let c = capability (response_of s) in
    if not (rv == 32)
    then done (err emsgsize, no_capability) (record s { flag_retry = true })
    else if ltb c.max_fw_image_size image_size
    then done (err enospc, c) s
    else if has_dma c.xfer_mode && not (c.max_dma_buf_size % l1_cache_bytes == 0)
    then done (err einval, c) s
    else done (ok 0, c) s

abbrev pub returning : {A : Type 0} → A → Loader → Outcome A
returning a s = done a (frame_ends s)

-- Eight bytes of query for a response of 32; zeros stand for what the stack holds before.
unfoldable pub ish_query_loader_prop : Shim → List ℕ → Loader → Outcome (Code × Capability)
unfolding loader_cl_send checked le_bytes
ish_query_loader_prop shim image s =
    loader_cl_send shim
      (record {
        message = loader_cmd_xfer_query ∷ 0 ∷ 0 ∷ 0 ∷ le_bytes 4 (length image);
        dma_mem = [];
      })
      (replicate 32 0) 32 s
    >>= checked (length image)
    >>= returning

-- `struct loader_xfer_fragment`
unfoldable pub fragment : ℕ → ℕ → ℕ → Bool → List ℕ
unfolding le_bytes
fragment xfer_mode offset size is_last =
    loader_cmd_xfer_fragment
    ∷ 0
    ∷ 0
    ∷ 0
    ∷ (le_bytes 4 xfer_mode
        ++ (le_bytes 4 offset ++ (le_bytes 4 size ++ le_bytes 4 (if is_last then 1 else 0))))

-- How a fragment is sent: from its offset, its size, whether it is the last, and its bytes.
abbrev pub Courier : Type 0
Courier = ℕ → ℕ → Bool → List ℕ → Sent

-- The loop of both transfers, with fuel. `rv` is the result of the last exchange.
unfoldable pub xfer_loop : ℕ → Shim → Courier → ℕ → List ℕ → ℕ → Code → Loader → Outcome Code
unfolding loader_cl_send
xfer_loop zero shim carry payload_max_size image fragment_offset rv s = endless
xfer_loop (suc fuel) shim carry payload_max_size image fragment_offset rv s =
    elim (ltb fragment_offset (length image)) [
      | false ↦ done rv s
      | true ↦
          let is_last =
            not (ltb ((fragment_offset + payload_max_size) % 4294967296) (length image)) in
          let fragment_size =
            if is_last then length image - fragment_offset else payload_max_size in
          loader_cl_send shim
            (carry fragment_offset fragment_size is_last
              (take fragment_size (drop fragment_offset image)))
            (0 ∷ 0 ∷ 0 ∷ 0 ∷ []) 4 s
          >>= λ c t. elim c [
            | err e ↦ done (err e) (record t { flag_retry = true })
            | ok n ↦
                xfer_loop fuel shim carry payload_max_size image (fragment_offset + fragment_size)
                  (ok n) t
          ]
    ]

-- The buffer of the loader in the hub, and the place of the payload, which is aligned to a cache line.
abbrev pub loader_shim_ipc_buf_size : ℕ
loader_shim_ipc_buf_size = 3968

abbrev pub ipc_fragment_data_preamble : ℕ
ipc_fragment_data_preamble = 64

-- The header has 20 bytes; zeros fill it up to the payload.
unfoldable pub ipc_fragment : Courier
unfolding fragment
ipc_fragment offset size is_last bytes = record {
  message = fragment 2 offset size is_last ++ (replicate 44 0 ++ bytes);
  dma_mem = [];
}

-- One round of fuel more than the image has bytes. What the loop returns after the last fragment is not the
-- result.
unfoldable pub ish_fw_xfer_ishtp : Bool → Shim → List ℕ → Loader → Outcome Code
unfolding xfer_loop ipc_fragment
ish_fw_xfer_ishtp allocated shim image s =
    if not allocated
    then done (err enomem) (record s { flag_retry = true })
    else xfer_loop (suc (length image)) shim ipc_fragment
        (loader_shim_ipc_buf_size - ipc_fragment_data_preamble) image 0 (ok 0) s
      >>= (λ c t. done (elim c [ err e ↦ err e | ok n ↦ ok 0 ]) t)
      >>= returning

-- The address of the DMA buffer follows the header, and the bytes are in the buffer.
unfoldable pub dma_fragment : ℕ → Courier
unfolding fragment le_bytes
dma_fragment ddr_phys_addr offset size is_last bytes = record {
  message = fragment 1 offset size is_last ++ le_bytes 8 ddr_phys_addr;
  dma_mem = bytes;
}

-- The smallest of three sizes, cut to whole cache lines.
unfoldable pub dma_payload : ℕ → ℕ → ℕ → ℕ
dma_payload image_size shim_buf_size limit =
    let m = min image_size (min shim_buf_size limit) in m - m % l1_cache_bytes

-- `dma_alloc` is what the allocation of a size gives. For an empty image `rv` is not set; `ok 0` stands
-- for it.
unfoldable pub ish_fw_xfer_direct_dma :
    (ℕ → Option ℕ) → ℕ → Shim → List ℕ → Capability → Loader → Outcome Code
unfolding xfer_loop dma_fragment dma_payload
ish_fw_xfer_direct_dma dma_alloc dma_buf_size_limit shim image c s =
    let payload_max_size = dma_payload (length image) c.max_dma_buf_size dma_buf_size_limit in
    elim (dma_alloc payload_max_size) [
      | none ↦ done (err enomem) (record s { flag_retry = true })
      | some phys ↦
          xfer_loop (suc (length image)) shim (dma_fragment phys) payload_max_size image 0 (ok 0) s
          >>= returning
    ]

unfoldable pub ish_fw_start : Shim → Loader → Outcome Code
unfolding loader_cl_send
ish_fw_start shim s =
    loader_cl_send shim (record { message = loader_cmd_start ∷ 0 ∷ 0 ∷ 0 ∷ []; dma_mem = [] })
      (0 ∷ 0 ∷ 0 ∷ 0 ∷ []) 4 s
    >>= returning
