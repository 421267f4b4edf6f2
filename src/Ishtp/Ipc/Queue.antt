-- ===== src/Ishtp/Ipc/Queue.antt =====
-- What the IPC transmit queue promises its clients: messages leave in the order of acceptance.
use ubuntu_elkhart_lake_pse.Prelude.{
  ℕ, ◌+◌, ◌≤◌, ◌≡◌, refl, List, [], ◌∷◌, ◌++◌, append_assoc, append-nil, arith, length, leb, ltb,
  Bool, ◌&&◌, if◌then◌else◌, ◌-◌, length-append,
}
use ubuntu_elkhart_lake_pse.Ishtp.Types.{ok, err, emsgsize, enomem, DevState, MsgHdr, Frame, Ipc}
use ubuntu_elkhart_lake_pse.Ishtp.Ipc.{
  ipc_msg, write_first, write_ipc_from_queue, write_ipc_to_queue, ishtp_send_msg,
}

-- Everything accepted so far: what the hardware has and what still waits for it.
abbrev pub submitted : Ipc → List Frame
submitted q = q.wire ++ q.wr_processing_list

-- The entries of the queue, in use and free.
abbrev pub entries : Ipc → ℕ
entries q = length q.wr_processing_list + q.wr_free_list

write_first-submitted :
    (l : List Frame) (q : Ipc)
    → q.wr_processing_list ≡ l
    → submitted (write_first l q) ≡ submitted q
unfolding write_first
write_first-submitted [] q e = refl
write_first-submitted (f ∷ rest) q e = rw (e, append_assoc)

write_first-entries :
    (l : List Frame) (q : Ipc) → q.wr_processing_list ≡ l → entries (write_first l q) ≡ entries q
unfolding write_first
write_first-entries [] q e = refl
write_first-entries (f ∷ rest) q e = rw e (omega arith)

write_first-free : (l : List Frame) (q : Ipc) → q.wr_free_list ≤ (write_first l q).wr_free_list
unfolding write_first
write_first-free [] q = omega arith
write_first-free (f ∷ rest) q = omega arith

-- Whatever the state of the device and of the doorbell, a message is neither lost nor reordered when
-- the queue is served: what was accepted stays the same, and no entry of the queue disappears.
pub write_ipc_from_queue-submitted :
    (state : DevState) (q : Ipc)
    → (submitted (write_ipc_from_queue state q).1 ≡ submitted q)
      × (entries (write_ipc_from_queue state q).1 ≡ entries q)
unfolding write_ipc_from_queue
write_ipc_from_queue-submitted state q = ground (
  arith,
  write_first-submitted q.wr_processing_list q refl,
  write_first-entries q.wr_processing_list q refl,
)

pub free-write_ipc_from_queue :
    (state : DevState) (q : Ipc) → q.wr_free_list ≤ (write_ipc_from_queue state q).1.wr_free_list
unfolding write_ipc_from_queue
free-write_ipc_from_queue state q = ground (arith, write_first-free q.wr_processing_list q)

-- A message fits into a frame and the queue has room for one.
abbrev pub accepts : Ipc → MsgHdr → Bool
accepts q hdr = leb hdr.length 124 && ltb 0 q.wr_free_list

-- Whether or not the hardware is ready, a message that fits and finds a free entry is appended, as
-- one frame, behind all that was accepted before; any other leaves what was accepted as it was. The
-- result tells the two apart, and the number of entries never changes.
pub ishtp_send_msg_lem :
    (state : DevState) (q : Ipc) (hdr : MsgHdr) (msg : List ℕ)
    → let (rv, q') = ishtp_send_msg state q hdr msg in
      (rv
        ≡ (if accepts q hdr then ok 0 else if ltb 124 hdr.length then err emsgsize else err enomem))
      × (submitted q' ≡ submitted q ++ (if accepts q hdr then ipc_msg hdr msg ∷ [] else []))
      × (entries q' ≡ entries q)
unfolding ishtp_send_msg write_ipc_to_queue
ishtp_send_msg_lem state q hdr msg = ground (
  arith,
  write_ipc_from_queue-submitted state queued,
  append_assoc q.wire q.wr_processing_list (ipc_msg hdr msg ∷ []),
  append-nil (submitted q),
  length-append q.wr_processing_list (ipc_msg hdr msg ∷ []),
)
  where
    queued : Ipc
    queued = record q {
      wr_free_list = q.wr_free_list - 1;
      wr_processing_list = q.wr_processing_list ++ ipc_msg hdr msg ∷ [];
    }

-- A call takes one entry at most.
pub free-ishtp_send_msg :
    (state : DevState) (q : Ipc) (hdr : MsgHdr) (msg : List ℕ)
    → q.wr_free_list ≤ (ishtp_send_msg state q hdr msg).1.wr_free_list + 1
unfolding ishtp_send_msg write_ipc_to_queue
free-ishtp_send_msg state q hdr msg = ground (
  arith,
  free-write_ipc_from_queue state (record q {
    wr_free_list = q.wr_free_list - 1;
    wr_processing_list = q.wr_processing_list ++ ipc_msg hdr msg ∷ [];
  }),
)
