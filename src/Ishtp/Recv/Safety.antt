-- ===== src/Ishtp/Recv/Safety.antt =====
-- The posted buffers and the memory of their clients, src/intel-ish-hid-linux-6.5/ishtp/client.c.
use ubuntu_elkhart_lake_pse.Prelude.{
  ℕ, ◌≡◌, ◌≢◌, List, [], ◌∷◌, Option, none, some, arith, ◌⊎◌, inl, inr,
}
use ubuntu_elkhart_lake_pse.Ishtp.Types.{MsgHdr, Rb, Client}
use ubuntu_elkhart_lake_pse.Ishtp.Recv.{fault, find_rb, look_at}

-- Each buffer points to a client in memory, or to none.
abbrev pub AllLive : (ℕ → Option Client) → List Rb → Type 0
AllLive heap [] = Unit
AllLive heap (r ∷ rs) =
    ((r.cl ≡ none) ⊎ ((q : ℕ) × (c : Client) × (r.cl ≡ some q) × (heap q ≡ some c)))
    × AllLive heap rs

pub find_rb-AllLive :
    (heap : ℕ → Option Client) (hdr : MsgHdr) (rs : List Rb)
    → AllLive heap rs
    → find_rb heap hdr rs ≢ fault
unfolding find_rb look_at
find_rb-AllLive heap hdr [] a e = ground arith
find_rb-AllLive heap hdr (r ∷ rs) (inl n, a) e = ground (arith, find_rb-AllLive heap hdr rs a)
find_rb-AllLive heap hdr (r ∷ rs) (inr (q, c, d, f), a) e =
    ground (arith, find_rb-AllLive heap hdr rs a)
