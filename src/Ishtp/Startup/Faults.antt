-- ===== src/Ishtp/Startup/Faults.antt =====
-- Where the start of the bus leaves the table of the firmware's clients, src/intel-ish-hid-linux-6.5/ishtp/hbm.c.
use ubuntu_elkhart_lake_pse.Prelude.{
  ℕ, ◌+◌, ◌≤◌, ◌<◌, ◌≡◌, refl, ap, ◌∙◌, Bool, true, false, ◌&&◌, ◌||◌, not, List, [], ◌∷◌, none,
  arith, length, get_or, ◌==◌, ltb, incr8, length-set,
}
use ubuntu_elkhart_lake_pse.Ishtp.Types.{init_clients, is_init_clients, FwClient}
use ubuntu_elkhart_lake_pse.Ishtp.Rings.{kmalloc}
use ubuntu_elkhart_lake_pse.Ishtp.Startup.{
  hbm_enum_clients, hbm_client_properties, is_enum_clients, is_client_properties, no_client,
  Platform, Startup,
}
use ubuntu_elkhart_lake_pse.Ishtp.Startup.Exchange.{
  find_next_bit, weight, ishtp_hbm_prop_req, request_next,
}
use ubuntu_elkhart_lake_pse.Ishtp.Startup.Responses.{
  with_map, begin_properties, left_in, enum_res, with_props, offered, store_props, props_res,
}
use ubuntu_elkhart_lake_pse.Ishtp.Startup.Addresses.{
  addresses, bits_from, find_next_bit_lem, bits_from_bounds, length-addresses,
}
use ubuntu_elkhart_lake_pse.Ishtp.Startup.Fill.{lt→ne, prop_req_more}

ltb-eq-false : (a b : ℕ) → b ≤ a → ltb a b ≡ false
ltb-eq-false a b h = ground arith

ltb-eq-true : (a b : ℕ) → a < b → not (ltb a b) ≡ false
ltb-eq-true a b h = ground arith

not_empty : (n : ℕ) → 0 < n → (not (◌==◌ 0 0) || n == 0) ≡ false
not_empty n h = ground arith

request_outside :
    (h : Platform) (s : Startup) (n a : ℕ)
    → length s.dev.fw_clients ≤ n
    → request_next h n a s ≡ none
unfolding request_next
request_outside h s n a e = rw (ltb-eq-false n (length s.dev.fw_clients) e) refl

-- A client is left, but no entry of the table.
prop_req_outside :
    (h : Platform) (s : Startup) (a : ℕ)
    → find_next_bit s.fw_clients_map s.fw_client_index ≡ a
    → a < 256
    → length s.dev.fw_clients ≤ s.fw_client_presentation_num
    → ishtp_hbm_prop_req h s ≡ none
prop_req_outside h s a f l e =
    prop_req_more h s a f (lt→ne a 256 l) ∙ request_outside h s s.fw_client_presentation_num a e

first_of :
    (m : List Bool) (found : List ℕ)
    → length m ≡ 256
    → bits_from m 0 0 ≡ found
    → 0 < length found
    → (a : ℕ) × (find_next_bit m 0 ≡ a) × (a < 256)
first_of m [] l e w = absurd (omega (arith, w))
first_of m (a ∷ rest) l e w =
    let (low, high, bit) = bits_from_bounds m 0 0 a rest e in
    (a, rw (find_next_bit_lem m 0 l, e) refl, omega (arith, high, l))

-- A map that is not empty has a first bit.
first_bit :
    (m : List Bool) → length m ≡ 256 → 0 < weight m → (a : ℕ) × (find_next_bit m 0 ≡ a) × (a < 256)
unfolding addresses
first_bit m l w = first_of m (bits_from m 0 0) l refl (omega (arith, w, length-addresses m))

-- What the allocation leaves.
allocate_lem :
    (h : Platform) (m : List Bool) (s : Startup)
    → s.dev.fw_clients ≡ []
    → (kmalloc s.dev).0 ≡ false
    → ((begin_properties h (with_map m s)).dev.fw_clients ≡ [])
      × ((begin_properties h (with_map m s)).fw_clients_map ≡ m)
      × ((begin_properties h (with_map m s)).fw_client_index ≡ 0)
unfolding begin_properties kmalloc
allocate_lem h m s e k = ground arith

-- The response to the enumeration was awaited.
pub taken :
    (h : Platform) (m : List Bool) (s : Startup)
    → (is_init_clients s.dev.dev_state && is_enum_clients s.hbm_state) ≡ true
    → enum_res h m s ≡ left_in (ishtp_hbm_prop_req h (begin_properties h (with_map m s)))
unfolding enum_res
taken h m s e = rw e refl

-- If there is no memory for the table, the first request for properties is still made: it writes through
-- the NULL pointer.
pub no_memory_faults :
    (h : Platform) (m : List Bool) (s : Startup)
    → length m ≡ 256
    → 0 < weight m
    → s.dev.dev_state ≡ init_clients
    → s.hbm_state ≡ hbm_enum_clients
    → s.dev.fw_clients ≡ []
    → (kmalloc s.dev).0 ≡ false
    → enum_res h m s ≡ none
no_memory_faults h m s l w init hbm empty k =
    let (table, same, at) = allocate_lem h m s empty k in
    let (a, f, small) = first_bit m l w in
    let u = begin_properties h (with_map m s) in
    let next : find_next_bit u.fw_clients_map u.fw_client_index ≡ a = rw (same, at) f in
    let no_room : length u.dev.fw_clients ≤ u.fw_client_presentation_num = rw table (omega arith) in
    taken h m s (cc (ap is_init_clients init, ap is_enum_clients hbm))
    ∙ ap left_in (prop_req_outside h u a next small no_room)

props_taken :
    (h : Platform) (a status : ℕ) (props : FwClient) (s : Startup)
    → (not (status == 0) || length s.dev.fw_clients == 0) ≡ false
    → not (ltb s.fw_client_presentation_num (length s.dev.fw_clients)) ≡ false
    → not ((get_or s.dev.fw_clients s.fw_client_presentation_num no_client).client_id == a) ≡ false
    → (not (is_init_clients s.dev.dev_state) || not (is_client_properties s.hbm_state)) ≡ false
    → props_res h a status props s
      ≡ offered h (
          ishtp_hbm_prop_req h
            (with_props (get_or s.dev.fw_clients s.fw_client_presentation_num no_client) props s))
unfolding props_res store_props
props_taken h a status props s c d f g = rw (c, d, f, g) refl

-- If the firmware has a client at address 255, then the response with its properties, the last one,
-- makes the driver write behind the table: the index has eight bits, so the search for the next client
-- begins at address 0 again.
pub last_address_faults :
    (h : Platform) (props : FwClient) (s : Startup)
    → length s.fw_clients_map ≡ 256
    → 0 < weight s.fw_clients_map
    → s.dev.dev_state ≡ init_clients
    → s.hbm_state ≡ hbm_client_properties
    → s.fw_client_index ≡ 255
    → s.fw_client_presentation_num + 1 ≡ length s.dev.fw_clients
    → length s.dev.fw_clients < 256
    → (get_or s.dev.fw_clients s.fw_client_presentation_num no_client).client_id ≡ 255
    → props_res h 255 0 props s ≡ none
last_address_faults h props s l w init hbm at last fits asked =
    let entry = get_or s.dev.fw_clients s.fw_client_presentation_num no_client in
    let u = with_props entry props s in
    let (a, f, small) = first_bit s.fw_clients_map l w in
    let wrapped : u.fw_client_index ≡ 0 = ap incr8 at in
    let next : find_next_bit u.fw_clients_map u.fw_client_index ≡ a =
      ap (find_next_bit s.fw_clients_map) wrapped ∙ f in
    let outside : length u.dev.fw_clients ≤ u.fw_client_presentation_num = omega (
      arith,
      last,
      fits,
      length-set s.dev.fw_clients s.fw_client_presentation_num
          (record props { client_id = entry.client_id }),
    ) in
    props_taken h 255 0 props s (not_empty (length s.dev.fw_clients) (omega (arith, last)))
      (ltb-eq-true s.fw_client_presentation_num (length s.dev.fw_clients) (omega (arith, last)))
      (ap (λ x. not (x == 255)) asked) (cc (ap is_init_clients init, ap is_client_properties hbm))
    ∙ ap (offered h) (prop_req_outside h u a next small outside)
