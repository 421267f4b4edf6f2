-- ===== src/Ishtp/Transfer/Paths.antt =====
-- The two ways on which a message reaches its client, src/intel-ish-hid-linux-6.5/ishtp/client.c: over IPC
-- and by DMA.
use ubuntu_elkhart_lake_pse.Prelude.{
  ℕ, ◌+◌, ◌*◌, ◌/◌, ◌%◌, ◌≤◌, ◌≡◌, refl, ap, ◌∙◌, true, List, ◌++◌, Option, none, some, arith,
  length, take, drop, memcpy, inl, inr, Option-cases, Bool-cases, ltb, ◌==◌, length-take,
}
use ubuntu_elkhart_lake_pse.Ishtp.Types.{Rb, Sys}
use ubuntu_elkhart_lake_pse.Ishtp.Recv.{
  ishtp_read, overwrite, complete, accept, deliver, ishtp_cl_read_complete,
}
use ubuntu_elkhart_lake_pse.Ishtp.Recv.Search.{fragment}
use ubuntu_elkhart_lake_pse.Ishtp.Transfer.{complete_dma, copy_dma, deliver_dma}

-- All of a client and its device but the two counters of received messages.
abbrev pub forget : Sys → Sys
forget s = record s { cl = record (s.cl) { recv_msg_cnt_ipc = 0; recv_msg_cnt_dma = 0 } }

abbrev pub forget_some : Option Sys → Option Sys
forget_some none = none
forget_some (some s) = some (forget s)

complete-forget : (s : Sys) (rb : Rb) → forget (complete_dma s rb) ≡ forget (complete s rb)
unfolding complete_dma complete ishtp_cl_read_complete
complete-forget s rb = refl

-- One fragment of whole words at the start of the block is `memcpy`.
overwrite-memcpy :
    (block regs : List ℕ) (n : ℕ)
    → n % 4 ≡ 0
    → n ≤ length regs
    → overwrite block 0 (ishtp_read regs n) ≡ memcpy block regs n
unfolding overwrite ishtp_read
overwrite-memcpy block regs n m l =
    let words : 4 * ((n + 3) / 4) ≡ n = omega arith in
    let measured : 0 + length (take n regs) ≡ n = omega (arith, length-take n regs) in
    ap (λ k. take k regs ++ drop (0 + length (take k regs)) block) words
    ∙ ap (λ k. take n regs ++ drop k block) measured

-- A message of whole words, in one fragment for an empty buffer, has the same effect on either way: on
-- the buffer, on its client and on the device, whether it is received or refused. Only the counter that
-- goes up is another.
pub deliver_dma-deliver :
    (host fw n : ℕ) (regs : List ℕ) (s : Sys) (pre : List Rb) (rb : Rb) (post : List Rb)
    → rb.buf_idx ≡ 0
    → n % 4 ≡ 0
    → n ≤ length regs
    → forget_some (deliver_dma (some regs) n s pre rb post)
      ≡ some (forget (deliver (fragment host fw n true) regs s pre rb post))
unfolding deliver_dma copy_dma deliver accept
deliver_dma-deliver host fw n regs s pre rb post e m l = elim (Option-cases rb.content) [
  | inl c ↦ rw c refl
  | inr (block, c) ↦
      let right : n + 0 ≡ n = omega arith in
      let left : 0 + n ≡ n = omega arith in
      rw (c, e, right, left, overwrite-memcpy block regs n m l)
        (elim (Bool-cases (rb.size == 0)) [
          | inl z ↦ rw z refl
          | inr z ↦ elim (Bool-cases (ltb rb.size n)) [
            | inl b ↦ rw (z, b) refl
            | inr b ↦
                rw (z, b)
                  (ap some (
                    complete-forget (record s { dev = record (s.dev) { read_list = pre ++ post } })
                      (record rb { content = some (memcpy block regs n); buf_idx = n })))
          ]
        ])
]
