-- ===== src/Tests/Loader.antt =====
-- A hub that acknowledges every message, and others that answer late or with rubbish.
use mathlib.Core.Path.{ap, subst}
use ubuntu_elkhart_lake_pse.Prelude.{
  ℕ, ◌≤◌, ◌<◌, ◌≡◌, refl, true, false, List, [], ◌∷◌, ◌++◌, map, Option, none, some, arith, length,
  ◌==◌,
}
use ubuntu_elkhart_lake_pse.Ishtp.Types.{ok, err, etimedout, Rb}
use ubuntu_elkhart_lake_pse.Loader.{
  null, buffer, Sent, Loader, Shim, done, dead_write, loader_cl_event_cb,
}
use ubuntu_elkhart_lake_pse.Loader.Xfer.{
  Capability, dma_payload, ish_fw_xfer_ishtp, ish_fw_xfer_direct_dma, ish_fw_start,
}
use ubuntu_elkhart_lake_pse.Loader.Load.{Kernel, load_until}
use ubuntu_elkhart_lake_pse.Loader.Receive.{Handled, event_cb-Handled, late_answer_hits_stack}
use ubuntu_elkhart_lake_pse.Loader.Image.{Covers}
use ubuntu_elkhart_lake_pse.Loader.Wire.{
  ipc_piece, dma_piece, AllFragments, AllAt, xfer_ishtp-Covers, xfer_dma-Covers,
}
use ubuntu_elkhart_lake_pse.Loader.Retries.{Ends, GrantsNothing, load_until-Ends}
use ubuntu_elkhart_lake_pse.Tests.Data.{test_rb}

-- The response to a fragment: the command with the bit of a response, and the status 0.
abbrev ack_bytes : List ℕ
ack_bytes = 129 ∷ 0 ∷ 0 ∷ 0 ∷ []

abbrev ack : Rb
ack = record (test_rb 40) { content = some ack_bytes; buf_idx = 4 }

abbrev short_rb : Rb
short_rb = record (test_rb 41) { content = some (129 ∷ 0 ∷ []); buf_idx = 2 }

abbrev acking : Shim
acking h = record { sending = ok 0; during = ack ∷ []; late = [] }

abbrev slow : Shim
slow h = record { sending = ok 0; during = []; late = ack ∷ [] }

abbrev idle : Loader
idle = record {
  target = null;
  max_size = 0;
  size = 0;
  error = ok 0;
  received = false;
  flag_retry = false;
  retry_count = 0;
  sent = [];
  recycled = [];
  late = [];
  resets = 0;
}

abbrev small_image : List ℕ
small_image = 11 ∷ 12 ∷ 13 ∷ []

xfer_ishtp-Covers_example :
    (t : Loader) × (ms : List Sent) × (ish_fw_xfer_ishtp true acking small_image idle
      ≡ done (ok 0) t)
    × (t.sent ≡ [] ++ ms)
    × AllFragments 2 ms
    × Covers 3904 0 (map ipc_piece ms) small_image
xfer_ishtp-Covers_example =
    xfer_ishtp-Covers acking small_image idle
      (λ h. (0, ack, refl, refl, refl, (ack_bytes, refl, refl, refl, refl, refl))) (omega arith)
      refl

-- 70 bytes, for two pieces of at most 64.
abbrev image : List ℕ
image =
    1 ∷ 2 ∷ 3 ∷ 4 ∷ 5 ∷ 6 ∷ 7 ∷ 8 ∷ 9 ∷ 10 ∷ 11 ∷ 12 ∷ 13 ∷ 14 ∷ 15 ∷ 16 ∷ 17 ∷ 18 ∷ 19 ∷ 20 ∷ 21
    ∷ 22 ∷ 23 ∷ 24 ∷ 25 ∷ 26 ∷ 27 ∷ 28 ∷ 29 ∷ 30 ∷ 31 ∷ 32 ∷ 33 ∷ 34 ∷ 35 ∷ 36 ∷ 37 ∷ 38 ∷ 39 ∷ 40
    ∷ 41 ∷ 42 ∷ 43 ∷ 44 ∷ 45 ∷ 46 ∷ 47 ∷ 48 ∷ 49 ∷ 50 ∷ 51 ∷ 52 ∷ 53 ∷ 54 ∷ 55 ∷ 56 ∷ 57 ∷ 58 ∷ 59
    ∷ 60 ∷ 61 ∷ 62 ∷ 63 ∷ 64 ∷ 65 ∷ 66 ∷ 67 ∷ 68 ∷ 69 ∷ 70 ∷ []

abbrev by_dma : Capability
by_dma = record { max_fw_image_size = 4096; xfer_mode = 1; max_dma_buf_size = 4096 }

abbrev dma_memory : ℕ → Option ℕ
dma_memory n = elim (n == 0) [ true ↦ none | false ↦ some 65536 ]

payload_lem : dma_payload 70 4096 8192 ≡ 64
unfolding dma_payload
payload_lem = refl

payload_positive : 0 < dma_payload 70 4096 8192
payload_positive = omega (arith, payload_lem)

payload_granted : dma_memory (dma_payload 70 4096 8192) ≡ some 65536
payload_granted = rw payload_lem refl

xfer_dma-Covers_example :
    (n : ℕ) × (t : Loader) × (ms : List Sent) × (ish_fw_xfer_direct_dma dma_memory 8192 acking image
        by_dma idle
      ≡ done (ok n) t)
    × (t.sent ≡ [] ++ ms)
    × AllFragments 1 ms
    × AllAt 65536 ms
    × Covers (dma_payload 70 4096 8192) 0 (map dma_piece ms) image
xfer_dma-Covers_example =
    xfer_dma-Covers acking image by_dma dma_memory 8192 65536 idle
      (λ h. (0, ack, refl, refl, refl, (ack_bytes, refl, refl, refl, refl, refl))) (omega arith)
      (omega arith) payload_positive payload_granted refl

abbrev waiting : Loader
waiting = record idle { target = buffer (0 ∷ 0 ∷ 0 ∷ 0 ∷ []); max_size = 4 }

abbrev bytes_of : Option (List ℕ) → List ℕ
bytes_of none = []
bytes_of (some b) = b

ack_whole : (msg : List ℕ) → ack.content ≡ some msg → ack.buf_idx ≤ length msg
ack_whole msg e = subst (λ m. 4 ≤ length m) (ap bytes_of e) (omega arith)

short_whole : (msg : List ℕ) → short_rb.content ≡ some msg → short_rb.buf_idx ≤ length msg
short_whole msg e = subst (λ m. 2 ≤ length m) (ap bytes_of e) (omega arith)

event_cb-Handled_example :
    Handled
      (short_rb ∷ ack ∷ ack ∷ [])
      waiting
      (loader_cl_event_cb (short_rb ∷ ack ∷ ack ∷ []) waiting)
event_cb-Handled_example =
    event_cb-Handled (short_rb ∷ ack ∷ ack ∷ []) waiting (omega arith)
      (short_whole, (ack_whole, (ack_whole, tt)))

late_answer_hits_stack_example :
    (t : Loader) × (ish_fw_start slow idle ≡ done (err etimedout) t)
    × (loader_cl_event_cb t.late t ≡ dead_write)
late_answer_hits_stack_example =
    late_answer_hits_stack slow idle 0 ack refl refl refl refl
      (ack_bytes, refl, refl, refl, refl, refl)

abbrev kernel : Kernel
kernel = record {
  filename = true;
  variant = ok 0;
  request_firmware = ok 0;
  image = small_image;
  fragment_buf = true;
  dma_alloc = dma_memory;
  dma_buf_size_limit = 8192;
}

load_until-Ends_example :
    Ends (GrantsNothing (λ j. kernel)) idle (load_until 4 (λ j. kernel) (λ j. slow) 0 idle)
load_until-Ends_example =
    load_until-Ends 4 (λ j. kernel) (λ j. slow) 0 idle (λ j. omega arith) (omega arith)
