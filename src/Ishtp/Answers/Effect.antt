-- ===== src/Ishtp/Answers/Effect.antt =====
-- Which client an answer of the firmware changes, src/intel-ish-hid-linux-6.5/ishtp/hbm.c.
use ubuntu_elkhart_lake_pse.Prelude.{
  ℕ, ◌≡◌, ◌≢◌, refl, ap, true, false, List, [], ◌∷◌, Option, some, arith, ◌⊎◌, inl, inr, Bool-cases,
  ◌==◌,
}
use ubuntu_elkhart_lake_pse.Ishtp.Types.{
  ok, err, enodev, cl_connected, cl_disconnected, Client, World,
}
use ubuntu_elkhart_lake_pse.Ishtp.Ipc.{ishtp_write_message}
use ubuntu_elkhart_lake_pse.Ishtp.Hbm.{ishtp_hbm_hdr, ishtp_hbm_cl_hdr}
use ubuntu_elkhart_lake_pse.Ishtp.Recv.{update}
use ubuntu_elkhart_lake_pse.Ishtp.Answers.{
  ConnectResponse, ishtp_hbm_cl_addr_equal, addressee, change_found, answered,
  ishtp_hbm_cl_connect_res, client_disconnect_res_cmd, fw_disconnected, ishtp_hbm_fw_disconnect_req,
}

-- The client at `p` is the first of the list that has the addresses of the response.
abbrev pub IsFirst : (ℕ → Option Client) → ConnectResponse → ℕ → Client → List ℕ → Type 0
IsFirst heap rs p cl [] = ⊥
IsFirst heap rs p cl (q ∷ qs) =
    ((q ≡ p) × (heap q ≡ some cl) × (ishtp_hbm_cl_addr_equal cl rs ≡ true))
    ⊎ ((c : Client) × (heap q ≡ some c)
        × (ishtp_hbm_cl_addr_equal c rs ≡ false)
        × IsFirst heap rs p cl qs)

addressee-IsFirst :
    (heap : ℕ → Option Client) (rs : ConnectResponse) (p : ℕ) (cl : Client) (qs : List ℕ)
    → IsFirst heap rs p cl qs
    → addressee heap rs qs ≡ some (some (p, cl))
unfolding addressee
addressee-IsFirst heap rs p cl [] i = absurd i
addressee-IsFirst heap rs p cl (q ∷ qs) (inl (e, h, a)) = ground arith
addressee-IsFirst heap rs p cl (q ∷ qs) (inr (c, h, a, i)) =
    ground (arith, addressee-IsFirst heap rs p cl qs i)

-- What a response with a status makes of a client `cl`: status 0 connects it, any other disconnects it, as if
-- there were no device.
abbrev pub IsAnswered : ℕ → Client → Client → Type 0
IsAnswered status cl cl' =
    ((status ≡ 0) × (cl' ≡ record cl { state = cl_connected; status = ok 0 }))
    ⊎ ((status ≢ 0) × (cl' ≡ record cl { state = cl_disconnected; status = err enodev }))

answered-IsAnswered :
    (rs : ConnectResponse) (cl : Client) → IsAnswered rs.status cl (answered rs cl)
answered-IsAnswered rs cl = elim (Bool-cases (rs.status == 0)) [
  | inl e ↦ rw e (inl (ground (arith, e), refl))
  | inr e ↦ rw e (inr (λ z. ground (arith, e, z), refl))
]

-- A connect response is for the first listed client with its addresses: this client is connected, with
-- status 0, if the status of the response is 0, and disconnected, with status -ENODEV, if it is any other;
-- nothing else of this client changes, and every other client and the device stay as they were.
pub connect_res_lem :
    (w : World) (rs : ConnectResponse) (p q : ℕ) (cl : Client)
    → IsFirst w.heap rs p cl w.dev.cl_list
    → q ≢ p
    → (w' : World) × (cl' : Client) × (ishtp_hbm_cl_connect_res w rs ≡ some w')
      × (w'.heap p ≡ some cl')
      × IsAnswered rs.status cl cl'
      × (w'.heap q ≡ w.heap q)
      × (w'.dev ≡ w.dev)
unfolding ishtp_hbm_cl_connect_res change_found
connect_res_lem w rs p q cl i d = (
  record w { heap = update w.heap p (some (answered rs cl)) },
  answered rs cl,
  ground (arith, addressee-IsFirst w.heap rs p cl w.dev.cl_list i),
  ground arith,
  answered-IsAnswered rs cl,
  ground (arith, d),
  refl,
)

-- A request of the firmware to disconnect is for the first listed client with its addresses: this client
-- is disconnected, every other one stays as it was, and of the device only the queue of outgoing messages
-- changes.
pub fw_disconnect_req_lem :
    (w : World) (rs : ConnectResponse) (p q : ℕ) (cl : Client)
    → IsFirst w.heap rs p cl w.dev.cl_list
    → q ≢ p
    → (w' : World) × (ishtp_hbm_fw_disconnect_req w rs ≡ some w')
      × (w'.heap p ≡ some (record cl { state = cl_disconnected }))
      × (w'.heap q ≡ w.heap q)
      × (w'.dev ≡ record (w.dev) { ipc = w'.dev.ipc })
unfolding ishtp_hbm_fw_disconnect_req
fw_disconnect_req_lem w rs p q cl i d =
    let dev =
      (ishtp_write_message w.dev (ishtp_hbm_hdr 4)
        (ishtp_hbm_cl_hdr cl client_disconnect_res_cmd (0 ∷ []))).1 in
    (
      record { dev = dev; heap = update w.heap p (some (record cl { state = cl_disconnected })) },
      ap (fw_disconnected w) (addressee-IsFirst w.heap rs p cl w.dev.cl_list i),
      ground arith,
      ground (arith, d),
      refl,
    )
