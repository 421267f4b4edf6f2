-- ===== src/Loader/Wire.antt =====
-- What the hub reads in the messages of a transfer, src/intel-ish-hid-linux-6.5/ishtp-fw-loader.c.
use mathlib.Core.Path.{subst, ap₂}
use ubuntu_elkhart_lake_pse.Prelude.{
  ℕ, suc, ◌+◌, ◌≤◌, ◌<◌, ◌≡◌, refl, ap, ◌∙◌, sym, Bool, true, false, List, [], ◌∷◌, ◌++◌, map,
  Option, some, arith, ◌==◌, length, take, drop, get_or, length-append, if◌then◌else◌,
}
use ubuntu_elkhart_lake_pse.Prelude.Bytes.{le_bytes, from_le, from_le-le_bytes_4}
use ubuntu_elkhart_lake_pse.Ishtp.Types.{Code, ok, err}
use ubuntu_elkhart_lake_pse.Loader.{Sent, Loader, Shim, Outcome, done, ◌>>=◌, frame_ends}
use ubuntu_elkhart_lake_pse.Loader.Xfer.{
  Courier, Capability, fragment, ipc_fragment, dma_fragment, dma_payload, ish_fw_xfer_ishtp,
  ish_fw_xfer_direct_dma, returning,
}
use ubuntu_elkhart_lake_pse.Loader.Image.{
  Piece, carried, Covers, Acknowledges, xfer_loop-Carried, dma_payload-le,
}

-- How a hub reads a fragment: the fields of its header as numbers of four bytes each, from byte 4 on, and the bytes
-- of the image where they are given.
abbrev pub field : ℕ → Sent → ℕ
field at m = from_le (take 4 (drop at m.message))

abbrev pub piece_in : List ℕ → Sent → Piece
piece_in bytes m = record {
  offset = field 8 m;
  size = field 12 m;
  is_last = field 16 m == 1;
  bytes = bytes;
}

-- Over ISHTP the bytes follow 64 bytes of header and padding; by DMA they are in the buffer.
abbrev pub ipc_piece : Sent → Piece
ipc_piece m = piece_in (drop 64 m.message) m

abbrev pub dma_piece : Sent → Piece
dma_piece m = piece_in m.dma_mem m

-- Each message is a fragment in the transfer mode `mode`.
abbrev pub AllFragments : ℕ → List Sent → Type 0
AllFragments mode [] = Unit
AllFragments mode (m ∷ ms) = (get_or m.message 0 0 ≡ 1) × (field 4 m ≡ mode) × AllFragments mode ms

-- Each message names the address of the buffer.
abbrev pub AllAt : ℕ → List Sent → Type 0
AllAt phys [] = Unit
AllAt phys (m ∷ ms) = (from_le (take 8 (drop 20 m.message)) ≡ phys) × AllAt phys ms

last_read : (b : Bool) → (from_le (le_bytes 4 (if b then 1 else 0)) == 1) ≡ b
unfolding from_le le_bytes
last_read true = refl
last_read false = refl

same_piece :
    (p : Piece) (offset size : ℕ) (is_last : Bool)
    → offset ≡ p.offset
    → size ≡ p.size
    → is_last ≡ p.is_last
    → record { offset = offset; size = size; is_last = is_last; bytes = p.bytes } ≡ p
same_piece p offset size is_last a b c = rw (a, b, c) refl

-- What is read is the piece that was carried.
ipc_piece-carried :
    (p : Piece)
    → p.offset < 4294967296
    → p.size < 4294967296
    → ipc_piece (carried ipc_fragment p) ≡ p
unfolding ipc_fragment fragment le_bytes
ipc_piece-carried p a b =
    same_piece p _ _ _ (from_le-le_bytes_4 p.offset a) (from_le-le_bytes_4 p.size b)
      (last_read p.is_last)

dma_piece-carried :
    (phys : ℕ) (p : Piece)
    → p.offset < 4294967296
    → p.size < 4294967296
    → dma_piece (carried (dma_fragment phys) p) ≡ p
unfolding dma_fragment fragment le_bytes
dma_piece-carried phys p a b =
    same_piece p _ _ _ (from_le-le_bytes_4 p.offset a) (from_le-le_bytes_4 p.size b)
      (last_read p.is_last)

-- All pieces are read back, whose numbers are those of an image below 4 GB.
map-carried :
    (carry : Courier) (read : Sent → Piece) (most at : ℕ) (ps : List Piece) (rest : List ℕ)
    → ((p : Piece) → p.offset < 4294967296 → p.size < 4294967296 → read (carried carry p) ≡ p)
    → at + length rest < 4294967296
    → Covers most at ps rest
    → map read (map (carried carry) ps) ≡ ps
map-carried carry read most at [] rest same k c = refl
map-carried carry read most at (p ∷ ps) rest same k (a, b, d, e, f, (more, g, h)) =
    let whole : length rest ≡ length p.bytes + length more =
      ap length g ∙ length-append p.bytes more in
    ap₂ (λ q qs. q ∷ qs) (same p (omega (arith, k, a, b, d, whole)) (omega (arith, k, b, whole)))
      (map-carried carry read most (at + p.size) ps more same (omega (arith, k, b, whole)) h)

ipc-AllFragments : (ps : List Piece) → AllFragments 2 (map (carried ipc_fragment) ps)
unfolding ipc_fragment fragment le_bytes from_le
ipc-AllFragments [] = tt
ipc-AllFragments (p ∷ ps) = (refl, refl, ipc-AllFragments ps)

dma-AllFragments :
    (phys : ℕ) (ps : List Piece) → AllFragments 1 (map (carried (dma_fragment phys)) ps)
unfolding dma_fragment fragment le_bytes from_le
dma-AllFragments phys [] = tt
dma-AllFragments phys (p ∷ ps) = (refl, refl, dma-AllFragments phys ps)

from_le-le_bytes_8 : (x : ℕ) → x < 18446744073709551616 → from_le (le_bytes 8 x) ≡ x
unfolding le_bytes from_le
from_le-le_bytes_8 x h = omega arith

dma-AllAt :
    (phys : ℕ) (ps : List Piece)
    → phys < 18446744073709551616
    → AllAt phys (map (carried (dma_fragment phys)) ps)
unfolding dma_fragment fragment le_bytes
dma-AllAt phys [] h = tt
dma-AllAt phys (p ∷ ps) h = (from_le-le_bytes_8 phys h, dma-AllAt phys ps h)

-- Over ISHTP, where the hub acknowledges every message: for any image that leaves room below 4 GB for
-- one payload, the transfer ends and succeeds. The messages that it sends are fragments for a transfer over
-- ISHTP, and what they say, read from their bytes, covers the image exactly: pieces of 1 to 3904 bytes, at
-- consecutive offsets from 0 on and in order, of which the last and no other is marked as the last, and
-- whose bytes, behind the header, make up the image.
pub xfer_ishtp-Covers :
    (shim : Shim) (image : List ℕ) (s : Loader)
    → Acknowledges shim
    → length image < 4294963392
    → s.late ≡ []
    → (t : Loader) × (ms : List Sent) × (ish_fw_xfer_ishtp true shim image s ≡ done (ok 0) t)
      × (t.sent ≡ s.sent ++ ms)
      × AllFragments 2 ms
      × Covers 3904 0 (map ipc_piece ms) image
unfolding ish_fw_xfer_ishtp
xfer_ishtp-Covers shim image s acks k l =
    let (n, t, ps, e, sent, late, covers) =
      xfer_loop-Carried shim acks ipc_fragment 3904 image (omega arith) (omega arith)
        (suc (length image)) 0 0 s (omega arith) l in
    (
      frame_ends t,
      map (carried ipc_fragment) ps,
      ap
          (λ (x : Outcome Code).
            x
            >>= (λ c t. done (elim c as (λ y. Code) [ err e ↦ err e | ok n ↦ ok 0 ]) t)
            >>= returning)
          e,
      sent,
      ipc-AllFragments ps,
      subst (λ qs. Covers 3904 0 qs image)
          (sym (
            map-carried ipc_fragment ipc_piece 3904 0 ps image ipc_piece-carried (omega arith)
              covers))
          covers,
    )

-- The same by DMA, with pieces of the size of the buffer that the kernel has given: each message is a fragment
-- for a transfer by DMA that names the address of the buffer, and the buffer holds the bytes of the piece
-- while the message is sent. The image is shorter than 2 GB, the address has 64 bits, and the buffer is
-- not empty.
pub xfer_dma-Covers :
    (shim : Shim) (image : List ℕ) (c : Capability) (dma_alloc : ℕ → Option ℕ) (limit phys : ℕ)
    (s : Loader)
    → Acknowledges shim
    → length image < 2147483648
    → phys < 18446744073709551616
    → 0 < dma_payload (length image) c.max_dma_buf_size limit
    → dma_alloc (dma_payload (length image) c.max_dma_buf_size limit) ≡ some phys
    → s.late ≡ []
    → (n : ℕ) × (t : Loader) × (ms : List Sent) × (ish_fw_xfer_direct_dma dma_alloc limit shim image
          c s
        ≡ done (ok n) t)
      × (t.sent ≡ s.sent ++ ms)
      × AllFragments 1 ms
      × AllAt phys ms
      × Covers (dma_payload (length image) c.max_dma_buf_size limit) 0 (map dma_piece ms) image
unfolding ish_fw_xfer_direct_dma
xfer_dma-Covers shim image c dma_alloc limit phys s acks k q pos a l =
    let payload = dma_payload (length image) c.max_dma_buf_size limit in
    let small : payload ≤ length image = dma_payload-le (length image) c.max_dma_buf_size limit in
    let (n, t, ps, e, sent, late, covers) =
      xfer_loop-Carried shim acks (dma_fragment phys) payload image pos (omega arith)
        (suc (length image)) 0 0 s (omega arith) l in
    (
      n,
      frame_ends t,
      map (carried (dma_fragment phys)) ps,
      rw (a, ish_fw_xfer_direct_dma) (ap (λ (x : Outcome Code). x >>= returning) e),
      sent,
      dma-AllFragments phys ps,
      dma-AllAt phys ps q,
      subst (λ qs. Covers payload 0 qs image)
          (sym (
            map-carried (dma_fragment phys) dma_piece payload 0 ps image (dma_piece-carried phys)
              (omega arith) covers))
          covers,
    )
