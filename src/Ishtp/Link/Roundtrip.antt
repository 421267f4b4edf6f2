-- ===== src/Ishtp/Link/Roundtrip.antt =====
-- Linking a client to the bus and unlinking it again.
use ubuntu_elkhart_lake_pse.Prelude.{
  ℕ, suc, ◌+◌, ◌≡◌, ◌≢◌, refl, sym, ap, ◌∙◌, Bool, true, false, List, [], ◌∷◌, ◌++◌, Option, some,
  arith, get_or, set, inl, inr, Option-cases, set-set, set-get_or,
}
use ubuntu_elkhart_lake_pse.Ishtp.Types.{ok, err, enodev, Client, Sys}
use ubuntu_elkhart_lake_pse.Ishtp.Recv.{update}
use ubuntu_elkhart_lake_pse.Ishtp.Link.{
  first_zero, link_at, ishtp_cl_link, keep_on, remove_client, with_list, ishtp_cl_unlink,
}

first_zero-get :
    (map : List Bool) (i k : ℕ)
    → first_zero map i ≡ some k
    → (j : ℕ) × (k ≡ i + j) × (get_or map j false ≡ false)
unfolding first_zero
first_zero-get [] i k h = ground arith
first_zero-get (true ∷ map) i k h =
    let (j, e, g) = first_zero-get map (i + 1) k h in (suc j, omega (arith, e), g)
first_zero-get (false ∷ map) i k h = (0, ground arith, refl)

-- Each linked client is another one than that at `p`, is in memory, and its host id is marked as used.
abbrev pub AllLinked : (ℕ → Option Client) → List Bool → ℕ → List ℕ → Type 0
AllLinked heap map p [] = Unit
AllLinked heap map p (q ∷ qs) =
    ((q ≢ p) × (c : Client) × (heap q ≡ some c) × (get_or map c.host_client_id false ≡ true))
    × AllLinked heap map p qs

-- The list without the client that was linked last.
remove_client-last :
    (heap : ℕ → Option Client) (map : List Bool) (id p : ℕ) (cl : Client) (qs : List ℕ)
    → AllLinked heap map p qs
    → get_or map id false ≡ false
    → cl.host_client_id ≡ id
    → remove_client (update heap p (some cl)) id (qs ++ p ∷ []) ≡ some qs
unfolding remove_client keep_on
remove_client-last heap map id p cl [] a g e = ground arith
remove_client-last heap map id p cl (q ∷ qs) ((d, c, f, u), a) g e =
    ground (arith, remove_client-last heap map id p cl qs a g e)

map_restored :
    (map : List Bool) (id : ℕ) → get_or map id false ≡ false → set (set map id true) id false ≡ map
map_restored map id g =
    set-set map id true false ∙ ap (set map id) (sym g) ∙ set-get_or map id false

-- Where the linked clients are in memory, have their ids marked, and the client is not among them: if
-- it is linked and then unlinked, the device is as it was before.
pub link-unlink :
    (heap : ℕ → Option Client) (s t : Sys) (n : ℕ)
    → AllLinked heap s.dev.host_clients_map s.cl.addr s.dev.cl_list
    → ishtp_cl_link s ≡ (ok n, t)
    → ishtp_cl_unlink (update heap s.cl.addr (some t.cl)) t ≡ some s.dev
unfolding ishtp_cl_link link_at ishtp_cl_unlink with_list
link-unlink heap s t n a h = elim (Option-cases (first_zero s.dev.host_clients_map 0)) [
  | inl e ↦ ground arith
  | inr (id, e) ↦
      let (j, k, g) = first_zero-get s.dev.host_clients_map 0 id e in
      let same : j ≡ id = omega (arith, k) in
      let free : get_or s.dev.host_clients_map id false ≡ false = rw (← same) g in
      let linked : (t.cl.host_client_id ≡ id) × (t.dev.cl_list ≡ s.dev.cl_list ++ s.cl.addr ∷ []) =
        ground arith in
      ground (
        arith,
        map_restored s.dev.host_clients_map id free,
        remove_client-last heap s.dev.host_clients_map id s.cl.addr t.cl s.dev.cl_list a free
            linked.0,
      )
]

-- A link that fails because the device is not enabled leaves its handle counted for good, though the
-- client is not on the list and its id not marked.
pub link_leaks_handle :
    (s t : Sys)
    → ishtp_cl_link s ≡ (err enodev, t)
    → t.dev ≡ record (s.dev) { open_handle_count = s.dev.open_handle_count + 1 }
unfolding ishtp_cl_link link_at
link_leaks_handle s t h = elim (Option-cases (first_zero s.dev.host_clients_map 0)) [
  | inl e ↦ ground arith
  | inr (id, e) ↦ ground arith
]
