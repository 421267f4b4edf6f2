-- ===== src/Ishtp/Startup/Fill.antt =====
-- The next step of filling the table of the firmware's clients, src/intel-ish-hid-linux-6.5/ishtp/hbm.c.
use ubuntu_elkhart_lake_pse.Prelude.{
  ℕ, zero, suc, ◌+◌, ◌-◌, ◌<◌, ◌≡◌, refl, sym, ap, ◌∙◌, Bool, true, false, List, [], ◌∷◌, ◌++◌,
  some, arith, map, append-nil, get_or, length, length-append, get_or-append, set-append,
  length-map, nil_of_length, ◌⊎◌, inl, inr, ltb, ◌==◌,
}
use native.Mathlib.Decide.{dec_lt}
use ubuntu_elkhart_lake_pse.Ishtp.Types.{
  Code, ok, err, enabled, resetting, is_enabled, is_init_clients, FwClient,
}
use ubuntu_elkhart_lake_pse.Ishtp.Startup.{
  hbm_working, is_client_properties, Platform, Startup, no_client, ish_hw_reset, ish_wakeup,
  ishtp_bus_new_client,
}
use ubuntu_elkhart_lake_pse.Ishtp.Startup.Exchange.{
  find_next_bit, weight, write, mark_entry, requested, reset, new_clients, all_known, request_next,
  ishtp_hbm_prop_req,
}
use ubuntu_elkhart_lake_pse.Ishtp.Startup.Addresses.{
  addresses, bits_from, find_next_bit_lem, bits_from_bounds, bits_from_next, length-addresses,
}

-- A new device changes neither the table nor the state of the device.
new_client_keeps :
    (h : Platform) (s : Startup)
    → ((ishtp_bus_new_client h s).1.dev.fw_clients ≡ s.dev.fw_clients)
      × ((ishtp_bus_new_client h s).1.dev.dev_state ≡ s.dev.dev_state)
unfolding ishtp_bus_new_client
new_client_keeps h s = ground arith

new_clients_keeps :
    (h : Platform) (rounds n : ℕ) (s : Startup)
    → ((new_clients h rounds n s).dev.fw_clients ≡ s.dev.fw_clients)
      × ((new_clients h rounds n s).dev.dev_state ≡ s.dev.dev_state)
unfolding new_clients
new_clients_keeps h zero n s = (refl, refl)
new_clients_keeps h (suc rounds) n s =
    let t = (ishtp_bus_new_client h (record s { fw_client_presentation_num = n })).1 in
    let (a, b) = new_clients_keeps h rounds (n + 1) t in
    let (c, d) = new_client_keeps h (record s { fw_client_presentation_num = n }) in (a ∙ c, b ∙ d)

pub reset_state_lem :
    (h : Platform) (s : Startup)
    → ((reset h s).dev.dev_state ≡ s.dev.dev_state) ⊎ ((reset h s).dev.dev_state ≡ resetting)
unfolding ish_hw_reset ish_wakeup
reset_state_lem h s = ground arith

pub lt→ne : (a b : ℕ) → a < b → (a == b) ≡ false
lt→ne a b h = ground arith

pub reset_of_resetting :
    (h : Platform) (s : Startup)
    → s.dev.dev_state ≡ resetting
    → (reset h s).dev.dev_state ≡ resetting
reset_of_resetting h s e = elim (reset_state_lem h s) [ inl k ↦ k ∙ e | inr k ↦ k ]

prop_req_last :
    (h : Platform) (s : Startup)
    → find_next_bit s.fw_clients_map s.fw_client_index ≡ 256
    → ishtp_hbm_prop_req h s ≡ all_known h s.fw_client_presentation_num s
unfolding ishtp_hbm_prop_req
prop_req_last h s e = rw e refl

pub prop_req_more :
    (h : Platform) (s : Startup) (a : ℕ)
    → find_next_bit s.fw_clients_map s.fw_client_index ≡ a
    → (a == 256) ≡ false
    → ishtp_hbm_prop_req h s ≡ request_next h s.fw_client_presentation_num a s
unfolding ishtp_hbm_prop_req
prop_req_more h s a e k = rw (e, k) refl

-- The map that the firmware sent, and the properties of the client at each address.
module _ (m : List Bool) (props : ℕ → FwClient) where
  abbrev pub describe : ℕ → FwClient
  describe a = record (props a) { client_id = a }

  -- The entries of `known` are filled; the properties of the client `next` were requested.
  pub record IsPartial (s : Startup) : Type 0 where
    pub known : List ℕ
    pub next : ℕ
    pub later : List ℕ
    pub entry : FwClient
    pub blank : List FwClient
    pub all : addresses m ≡ known ++ next ∷ later
    pub left : bits_from m 0 (next + 1) ≡ later
    pub small : next < 255
    pub table : s.dev.fw_clients ≡ map describe known ++ entry ∷ blank
    pub asked : entry.client_id ≡ next
    pub room : length blank ≡ length later
    pub at : s.fw_client_index ≡ next
    pub count : s.fw_client_presentation_num ≡ length known
    pub same_map : s.fw_clients_map ≡ m

  abbrev pub IsComplete : Startup → Type 0
  IsComplete s = s.dev.fw_clients ≡ map describe (addresses m)

  -- What holds of the table, by the state of the start.
  pub record Tracks (s : Startup) : Type 0 where
    pub partial :
        is_init_clients s.dev.dev_state ≡ true
        → is_client_properties s.hbm_state ≡ true
        → IsPartial s
    pub complete : is_enabled s.dev.dev_state ≡ true → IsComplete s

  -- All is known, and there are fewer than 255 clients.
  all_known-Tracks :
      (h : Platform) (n : ℕ) (s : Startup)
      → n < 255
      → IsComplete s
      → (r : Code) × (t : Startup) × (all_known h n s ≡ some (r, t)) × Tracks t
  unfolding all_known
  all_known-Tracks h n s small c =
      let u = record s { hbm_state = hbm_working; dev = record (s.dev) { dev_state = enabled } } in
      let (table, state) = new_clients_keeps h n 1 u in
      let fits : (n == 255) ≡ false = lt→ne n 255 small in
      (
        ok 0,
        new_clients h n 1 u,
        rw fits refl,
        record {
          partial = λ i p. absurd (cc (ap is_init_clients state));
          complete = λ e. table ∙ c;
        },
      )

  requested-Tracks :
      (h : Platform) (next : ℕ) (r : Code) (t : Startup)
      → IsPartial (record t { fw_client_index = next })
      → is_enabled t.dev.dev_state ≡ false
      → Tracks (requested h next (r, t)).1
  unfolding requested
  requested-Tracks h next (ok n) t p e = record { partial = λ i q. p; complete = λ f. absurd (cc) }
  requested-Tracks h next (err e) t p off =
      let was = record t { dev = record (t.dev) { dev_state = resetting } } in
      record {
        partial = λ i q. absurd (cc (ap is_init_clients (reset_of_resetting h was refl)));
        complete = λ f. absurd (cc (ap is_enabled (reset_of_resetting h was refl)));
      }

  -- The entry of the next client is there.
  request_next-Tracks :
      (h : Platform) (s : Startup) (known later : List ℕ) (next : ℕ) (entry : FwClient)
      (blank : List FwClient)
      → addresses m ≡ known ++ next ∷ later
      → bits_from m 0 (next + 1) ≡ later
      → next < 255
      → s.dev.fw_clients ≡ map describe known ++ entry ∷ blank
      → length blank ≡ length later
      → s.fw_clients_map ≡ m
      → s.fw_client_presentation_num ≡ length known
      → is_enabled s.dev.dev_state ≡ false
      → (r : Code) × (t : Startup) × (request_next h (length known) next s ≡ some (r, t)) × Tracks t
  unfolding request_next
  request_next-Tracks h s known later next entry blank all left small table room same count off =
      let marked = mark_entry (length known) next s in
      let sent = write marked (0x05 ∷ next ∷ 0 ∷ 0 ∷ []) in
      let n : length (map describe known) ≡ length known = length-map describe known in
      let inside : ltb (length known) (length s.dev.fw_clients) ≡ true =
        rw table (ground (arith, n, length-append (map describe known) (entry ∷ blank))) in
      let held : get_or s.dev.fw_clients (length known) no_client ≡ entry =
        rw (table, ← n) (get_or-append (map describe known) entry blank no_client) in
      let filled : marked.dev.fw_clients
          ≡ map describe known ++ record entry { client_id = next } ∷ blank =
        rw (held, table, ← n)
          (set-append (map describe known) entry blank (record entry { client_id = next })) in
      (
        (requested h next sent).0,
        (requested h next sent).1,
        rw inside refl,
        requested-Tracks h next sent.0 sent.1
            (record {
              known = known;
              next = next;
              later = later;
              entry = record entry { client_id = next };
              blank = blank;
              all = all;
              left = left;
              small = small;
              table = filled;
              asked = refl;
              room = room;
              at = refl;
              count = count;
              same_map = same;
            })
            off,
      )

  request_at :
      (h : Platform) (s : Startup) (n : ℕ) (known later : List ℕ) (next : ℕ) (entry : FwClient)
      (blank : List FwClient)
      → addresses m ≡ known ++ next ∷ later
      → bits_from m 0 (next + 1) ≡ later
      → next < 255
      → s.dev.fw_clients ≡ map describe known ++ entry ∷ blank
      → length blank ≡ length later
      → s.fw_clients_map ≡ m
      → n ≡ length known
      → s.fw_client_presentation_num ≡ length known
      → is_enabled s.dev.dev_state ≡ false
      → (r : Code) × (t : Startup) × (request_next h n next s ≡ some (r, t)) × Tracks t
  request_at h s n known later next entry blank all left small table room same e count off = rw e (
      request_next-Tracks h s known later next entry blank all left small table room same count off)

  -- The request for the next client, if there is one.
  module _ (l : length m ≡ 256) (w : weight m < 255) (z : get_or m 255 false ≡ false) where
    -- The map has no bit 255.
    pub address_small : (a : ℕ) → a < 256 → get_or m a false ≡ true → a < 255
    address_small a h e = elim (dec_lt a 255) [
      | yes p ↦ p
      | no p ↦
          let same : a ≡ 255 = omega (arith, h) in absurd (cc (ap (λ i. get_or m i false) same))
    ]

    -- `known` has been filled.
    pub prop_req-Tracks :
        (h : Platform) (s : Startup) (known rest : List ℕ) (blank : List FwClient)
        → addresses m ≡ known ++ rest
        → bits_from m 0 s.fw_client_index ≡ rest
        → s.dev.fw_clients ≡ map describe known ++ blank
        → length blank ≡ length rest
        → s.fw_client_presentation_num ≡ length known
        → s.fw_clients_map ≡ m
        → is_enabled s.dev.dev_state ≡ false
        → (r : Code) × (t : Startup) × (ishtp_hbm_prop_req h s ≡ some (r, t)) × Tracks t
    prop_req-Tracks h s known [] blank all left table room count same off =
        let none_left : find_next_bit s.fw_clients_map s.fw_client_index ≡ 256 =
          rw (same, find_next_bit_lem m s.fw_client_index l, left) refl in
        let whole : addresses m ≡ known = all ∙ append-nil known in
        let small : length known < 255 = omega (arith, w, length-addresses m, ap length whole) in
        let filled : s.dev.fw_clients ≡ map describe known =
          rw (nil_of_length blank room, append-nil) at table in
        rw (prop_req_last h s none_left) (
          all_known-Tracks h s.fw_client_presentation_num s (omega (arith, small, count))
            (filled ∙ ap (map describe) (sym whole)))
    prop_req-Tracks h s known (next ∷ later) [] all left table room count same off =
        absurd (omega (arith, room))
    prop_req-Tracks h s known (next ∷ later) (entry ∷ blank) all left table room count same off =
        let found : find_next_bit s.fw_clients_map s.fw_client_index ≡ next =
          rw (same, find_next_bit_lem m s.fw_client_index l, left) refl in
        let (low, high, bit) = bits_from_bounds m 0 s.fw_client_index next later left in
        let zero_less : next - 0 ≡ next = omega arith in
        let more : (next == 256) ≡ false = lt→ne next 256 (omega (arith, high, l)) in
        rw (prop_req_more h s next found more) (
          request_at h s s.fw_client_presentation_num known later next entry blank all
            (bits_from_next m 0 s.fw_client_index next later left)
            (address_small next (omega (arith, high, l)) (rw zero_less at bit)) table
            (omega (arith, room)) same count count off)
