-- ===== src/Ishtp/Send/Fragments.antt =====
-- A message that is sent over IPC can be put together again from its fragments.
use ubuntu_elkhart_lake_pse.Prelude.{
  ℕ, zero, suc, ◌+◌, ◌-◌, ◌*◌, ◌%◌, ◌≤◌, ◌<◌, ◌≡◌, refl, sym, ap, ◌∙◌, Bool, true, false, List, [],
  ◌∷◌, ◌++◌, append_assoc, arith, length, length-take, take_split, drop-drop, take, drop, leb,
  leb→le, leb→gt, if◌then◌else◌, inl, inr, Bool-cases,
}
use native.Mathlib.Nat.{mul-le-mul_right}
use ubuntu_elkhart_lake_pse.Ishtp.Types.{Frame, Device}
use ubuntu_elkhart_lake_pse.Ishtp.Ipc.{ipc_msg, ishtp_send_msg}
use ubuntu_elkhart_lake_pse.Ishtp.Ipc.Queue.{submitted, ishtp_send_msg_lem, free-ishtp_send_msg}
use ubuntu_elkhart_lake_pse.Ishtp.Send.{TxLoop, fragment_hdr, last_fragment, next_fragment, tx_loop}

-- What a receiver makes of a sequence of frames: payloads are collected until a frame says that the
-- message is complete.
pub reassemble : List ℕ → List Frame → List (List ℕ)
reassemble acc [] = []
reassemble acc (f ∷ fs) =
    if f.hdr.msg_complete
    then (acc ++ f.payload) ∷ reassemble [] fs
    else reassemble (acc ++ f.payload) fs

-- Each frame goes from this host client to this firmware client and holds at most `mtu` bytes.
abbrev pub Addressed : ℕ → ℕ → ℕ → List Frame → Type 0
Addressed host fw mtu [] = Unit {0}
Addressed host fw mtu (f ∷ fs) =
    ((f.hdr.host_addr ≡ host)
      × (f.hdr.fw_addr ≡ fw)
      × (f.hdr.reserved ≡ 0)
      × (length f.payload ≤ mtu))
    × Addressed host fw mtu fs

-- One run of the loop has put frames on the queue that make up `msg`.
pub record Sent (host fw : ℕ) (acc msg : List ℕ) (s t : TxLoop) : Type 0 where
  pub frames : List Frame
  pub appended : submitted t.dev.ipc ≡ submitted s.dev.ipc ++ frames
  pub whole : reassemble acc frames ≡ (acc ++ msg) ∷ []
  pub addressed : Addressed host fw s.dev.mtu frames
  pub device : t.dev ≡ record (s.dev) { ipc = t.dev.ipc }
  pub offs : t.tx_offs ≡ 0
  pub idle : t.sending ≡ false

fragment_accepted :
    (d : Device) (host fw n : ℕ) (complete : Bool) (msg : List ℕ)
    → n ≤ 124
    → 0 < d.ipc.wr_free_list
    → submitted (ishtp_send_msg d.dev_state d.ipc (fragment_hdr host fw n complete) msg).1
      ≡ submitted d.ipc ++ ipc_msg (fragment_hdr host fw n complete) msg ∷ []
unfolding fragment_hdr
fragment_accepted d host fw n complete msg h k =
    ground (arith, ishtp_send_msg_lem d.dev_state d.ipc (fragment_hdr host fw n complete) msg)

some_room : (rem free mtu : ℕ) → 0 < rem → rem ≤ free * mtu → 0 < free
some_room rem zero mtu p r = absurd (omega arith)
some_room rem (suc free) mtu p r = omega arith

room_left : (rem free free' mtu : ℕ) → rem ≤ free * mtu → free ≤ free' + 1 → rem - mtu ≤ free' * mtu
room_left rem free free' mtu h k = omega (arith, mul-le-mul_right {m = free} {n = free' + 1} mtu k)

module _ (host fw size : ℕ) (block : List ℕ) where
  tx_loop_last :
      (fuel rem : ℕ) (s : TxLoop)
      → 0 < rem
      → leb rem s.dev.mtu ≡ true
      → tx_loop (suc fuel) host fw block size rem s ≡ last_fragment host fw block rem s
  unfolding tx_loop
  tx_loop_last fuel rem s p h = ground arith

  tx_loop_next :
      (fuel rem : ℕ) (s : TxLoop)
      → 0 < rem
      → leb rem s.dev.mtu ≡ false
      → tx_loop (suc fuel) host fw block size rem s
        ≡ tx_loop fuel host fw block size
            (size - (s.tx_offs + s.dev.mtu))
            (next_fragment host fw block s)
  unfolding tx_loop
  tx_loop_next fuel rem s p h = ground arith

  last-Sent :
      (rem : ℕ) (acc : List ℕ) (s : TxLoop)
      → rem ≤ s.dev.mtu
      → s.dev.mtu ≤ 124
      → s.tx_offs + rem ≤ length block
      → 0 < s.dev.ipc.wr_free_list
      → Sent host fw acc (take rem (drop s.tx_offs block)) s (last_fragment host fw block rem s)
  unfolding last_fragment ipc_msg reassemble
  last-Sent rem acc s h m b f = record {
    frames = ipc_msg (fragment_hdr host fw rem true) (drop s.tx_offs block) ∷ [];
    appended = fragment_accepted s.dev host fw rem true (drop s.tx_offs block) (omega arith) f;
    whole =
        ap (λ k. (acc ++ take k (drop s.tx_offs block)) ∷ []) {x = rem % 512} {y = rem}
          (omega arith);
    addressed =
        ((refl, refl, refl, omega (arith, length-take (rem % 512) (drop s.tx_offs block))), tt);
    device = refl;
    offs = refl;
    idle = refl;
  }

  split_rem :
      (n rem offs : ℕ)
      → n ≤ rem
      → take rem (drop offs block)
        ≡ take n (drop offs block) ++ take (rem - n) (drop (offs + n) block)
  split_rem n rem offs h =
      ap (λ k. take k (drop offs block)) {x = rem} {y = n + (rem - n)} (omega arith)
      ∙ take_split n (rem - n) (drop offs block)
      ∙ ap (λ l. take n (drop offs block) ++ take (rem - n) l) (drop-drop offs n block)

  next-Sent :
      (rem : ℕ) (acc : List ℕ) (s t : TxLoop)
      → s.dev.mtu < rem
      → s.dev.mtu ≤ 124
      → 0 < s.dev.ipc.wr_free_list
      → Sent host fw
          (acc ++ take s.dev.mtu (drop s.tx_offs block))
          (take (rem - s.dev.mtu) (drop (s.tx_offs + s.dev.mtu) block))
          (next_fragment host fw block s)
          t
      → Sent host fw acc (take rem (drop s.tx_offs block)) s t
  unfolding next_fragment ipc_msg reassemble
  next-Sent rem acc s t h m f rest = record {
    frames = ipc_msg (fragment_hdr host fw s.dev.mtu false) (drop s.tx_offs block) ∷ rest.frames;
    appended =
        rest.appended
        ∙ ap (λ l. l ++ rest.frames)
            (fragment_accepted s.dev host fw s.dev.mtu false (drop s.tx_offs block) m f)
        ∙ append_assoc (submitted s.dev.ipc) _ rest.frames;
    whole =
        let e : s.dev.mtu % 512 ≡ s.dev.mtu = omega arith in
        rw e (
          rest.whole
          ∙ ap (λ l. l ∷ [])
              (append_assoc acc _ _
                ∙ ap (λ l. acc ++ l) (sym (split_rem s.dev.mtu rem s.tx_offs (omega arith)))));
    addressed = (
      (refl, refl, refl, omega (arith, length-take (s.dev.mtu % 512) (drop s.tx_offs block))),
      rest.addressed,
    );
    device = rest.device;
    offs = rest.offs;
    idle = rest.idle;
  }

  -- Whatever the state of the hardware, a loop over `rem` bytes at offset `tx_offs`, with a free
  -- queue entry for each fragment, submits frames from which a receiver gets exactly these bytes as
  -- one message, and then nothing is being sent. The fuel `suc rem` suffices.
  pub tx_loop-Sent :
      (fuel rem : ℕ) (acc : List ℕ) (s : TxLoop)
      → rem < fuel
      → 0 < rem
      → s.tx_offs + rem ≡ size
      → size ≤ length block
      → 0 < s.dev.mtu
      → s.dev.mtu ≤ 124
      → rem ≤ s.dev.ipc.wr_free_list * s.dev.mtu
      → Sent host fw acc (take rem (drop s.tx_offs block)) s (tx_loop fuel host fw block size rem s)
  unfolding next_fragment
  tx_loop-Sent zero rem acc s f p e b m n r = elim f [ ]
  tx_loop-Sent (suc fuel) rem acc s f p e b m n r = elim (Bool-cases (leb rem s.dev.mtu)) [
    | inl last ↦
        rw (tx_loop_last fuel rem s p last)
          (last-Sent rem acc s (leb→le _ _ last) n (omega arith) (some_room _ _ _ p r))
    | inr more ↦
        let h : s.dev.mtu < rem = leb→gt _ _ more in
        let left : rem - s.dev.mtu ≡ size - (s.tx_offs + s.dev.mtu) = omega arith in
        rw (tx_loop_next fuel rem s p more) (
          next-Sent rem acc s _ h n (some_room _ _ _ p r) (
            rw (← left) (
              tx_loop-Sent fuel (rem - s.dev.mtu) (acc ++ take s.dev.mtu (drop s.tx_offs block))
                (next_fragment host fw block s) (omega arith) (omega arith) (omega arith) b m n
                (room_left rem s.dev.ipc.wr_free_list _ s.dev.mtu r (
                  free-ishtp_send_msg s.dev.dev_state s.dev.ipc
                    (fragment_hdr host fw s.dev.mtu false) (drop s.tx_offs block))))))
  ]
