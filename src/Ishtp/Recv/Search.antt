-- ===== src/Ishtp/Recv/Search.antt =====
-- The search for the buffer that takes a fragment, src/intel-ish-hid-linux-6.5/ishtp/client.c.
use ubuntu_elkhart_lake_pse.Prelude.{
  ℕ, ◌≡◌, ◌≢◌, Bool, true, false, List, [], ◌∷◌, ◌++◌, Option, none, some, arith, ◌⊎◌, inl, inr,
}
use ubuntu_elkhart_lake_pse.Ishtp.Types.{MsgHdr, Rb, Client}
use ubuntu_elkhart_lake_pse.Ishtp.Recv.{update, takes, hit, find_rb, look_at}

abbrev pub fragment : ℕ → ℕ → ℕ → Bool → MsgHdr
fragment host fw n last = record {
  fw_addr = fw;
  host_addr = host;
  length = n;
  reserved = 0;
  msg_complete = last;
}

-- A buffer of no client, or of another client that the message is not for.
abbrev pub Skipped : (ℕ → Option Client) → ℕ → ℕ → ℕ → Rb → Type 0
Skipped heap host fw p r =
    (r.cl ≡ none)
    ⊎ ((q : ℕ) × (c : Client) × (r.cl ≡ some q)
        × (q ≢ p)
        × (heap q ≡ some c)
        × (takes (fragment host fw 0 false) c ≡ false))

abbrev pub AllSkipped : (ℕ → Option Client) → ℕ → ℕ → ℕ → List Rb → Type 0
AllSkipped heap host fw p [] = Unit
AllSkipped heap host fw p (r ∷ rs) = Skipped heap host fw p r × AllSkipped heap host fw p rs

pub find_rb-AllSkipped :
    (heap : ℕ → Option Client) (host fw n p : ℕ) (last : Bool) (pre post : List Rb) (rb : Rb)
    (cl : Client)
    → AllSkipped heap host fw p pre
    → rb.cl ≡ some p
    → heap p ≡ some cl
    → takes (fragment host fw 0 false) cl ≡ true
    → find_rb heap (fragment host fw n last) (pre ++ rb ∷ post) ≡ hit pre rb cl post
unfolding find_rb look_at takes
find_rb-AllSkipped heap host fw n p last [] post rb cl a o h t = ground arith
find_rb-AllSkipped heap host fw n p last (r ∷ pre) post rb cl (inl e, a) o h t =
    ground (arith, find_rb-AllSkipped heap host fw n p last pre post rb cl a o h t)
find_rb-AllSkipped heap host fw n p last (r ∷ pre) post rb cl (inr (q, c, e, d, f, g), a) o h t =
    ground (arith, find_rb-AllSkipped heap host fw n p last pre post rb cl a o h t)

pub AllSkipped-update :
    (heap : ℕ → Option Client) (host fw p : ℕ) (v : Option Client) (pre : List Rb)
    → AllSkipped heap host fw p pre
    → AllSkipped (update heap p v) host fw p pre
AllSkipped-update heap host fw p v [] a = tt
AllSkipped-update heap host fw p v (r ∷ pre) (inl e, a) =
    (inl e, AllSkipped-update heap host fw p v pre a)
AllSkipped-update heap host fw p v (r ∷ pre) (inr (q, c, e, d, f, g), a) =
    (inr (q, c, e, d, ground arith, g), AllSkipped-update heap host fw p v pre a)
