-- ===== src/Ishtp/Startup/Exchange.antt =====
-- The exchange of bus messages when the bus starts, src/intel-ish-hid-linux-6.5/ishtp/hbm.c: the
-- requests.
use ubuntu_elkhart_lake_pse.Prelude.{
  ℕ, zero, suc, ◌+◌, ◌%◌, Bool, true, false, not, ◌&&◌, List, [], ◌∷◌, Option, none, some, ltb, leb,
  ◌==◌, if◌then◌else◌, get_or, set, length,
}
use ubuntu_elkhart_lake_pse.Ishtp.Types.{Code, ok, err, eio, enodev, enabled, resetting, Device}
use ubuntu_elkhart_lake_pse.Ishtp.Ipc.{ishtp_write_message}
use ubuntu_elkhart_lake_pse.Ishtp.Hbm.{ishtp_hbm_hdr}
use ubuntu_elkhart_lake_pse.Ishtp.Rings.{kmalloc}
use ubuntu_elkhart_lake_pse.Ishtp.Startup.{
  hbm_idle, hbm_start, hbm_enum_clients, hbm_working, Platform, Startup, ish_hw_reset, no_client,
  ishtp_bus_new_client,
}

-- ISHTP_CLIENTS_MAX
abbrev pub clients_max : ℕ
clients_max = 256

abbrev pub replicate {ℓ} : {A : Type ℓ} → ℕ → A → List A
replicate zero a = []
replicate (suc n) a = a ∷ replicate n a

-- `find_next_bit`, in the rest of the map from bit `i` on; the length of the map if there is none.
unfoldable pub find_from : List Bool → ℕ → ℕ → ℕ
find_from [] i start = i
find_from (b ∷ bs) i start =
    let rest = find_from bs (i + 1) start in if b && leb start i then i else rest

unfoldable pub find_next_bit : List Bool → ℕ → ℕ
unfolding find_from
find_next_bit map start = find_from map 0 start

unfoldable pub weight : List Bool → ℕ
weight [] = 0
weight (b ∷ bs) = let rest = weight bs in if b then suc rest else rest

-- A message of the bus, of which only its bytes matter.
abbrev pub write : Startup → List ℕ → Code × Startup
write s msg =
    let (rv, dev) = ishtp_write_message s.dev (ishtp_hbm_hdr (length msg)) msg in
    (rv, record s { dev = dev })

-- The device is reset; what the reset returns is ignored.
abbrev pub reset : Platform → Startup → Startup
reset h s = record s { dev = (ish_hw_reset h s.dev).1 }

abbrev pub resetting_now : Platform → Startup → Startup
resetting_now h s = reset h (record s { dev = record (s.dev) { dev_state = resetting } })

unfoldable pub ishtp_hbm_start_req : Platform → Startup → Code × Startup
unfolding ish_hw_reset ishtp_hbm_hdr
ishtp_hbm_start_req h s =
    let (rv, t) = write (record s { hbm_state = hbm_start }) (0x01 ∷ 0 ∷ 0 ∷ 1 ∷ []) in
    elim rv [
      | ok n ↦ (ok 0, t)
      | err e ↦ (err enodev, record (resetting_now h t) { hbm_state = hbm_idle })
    ]

unfoldable pub ishtp_hbm_enum_clients_req : Platform → Startup → Startup
unfolding ish_hw_reset ishtp_hbm_hdr
ishtp_hbm_enum_clients_req h s =
    let (rv, t) = write s (0x04 ∷ 0 ∷ 0 ∷ 0 ∷ []) in
    record (elim rv as (λ c. Startup) [ ok n ↦ t | err e ↦ resetting_now h t ]) {
      hbm_state = hbm_enum_clients;
    }

-- The outcome of the allocation. The count has eight bits.
allocated : Platform → Startup → ℕ → Bool × Device → Startup
unfolding ish_hw_reset
allocated h s n (false, dev) = resetting_now h (record s { dev = dev })
allocated h s n (true, dev) = record s { dev = record dev { fw_clients = replicate n no_client } }

unfoldable pub ishtp_hbm_fw_cl_allocate : Platform → Startup → Startup
unfolding weight allocated kmalloc
ishtp_hbm_fw_cl_allocate h s =
    let n = (s.fw_clients_num + weight s.fw_clients_map) % 256 in
    let t = record s { fw_clients_num = n } in if n == 0 then t else allocated h t n (kmalloc s.dev)

-- A device for each of the `rounds` clients from the one before `n` on. The results are ignored.
unfoldable pub new_clients : Platform → ℕ → ℕ → Startup → Startup
unfolding ishtp_bus_new_client
new_clients h zero n s = record s { fw_client_presentation_num = n }
new_clients h (suc rounds) n s =
    new_clients h rounds (n + 1)
      (ishtp_bus_new_client h (record s { fw_client_presentation_num = n })).1

-- All properties are known. With 255 clients the counter of eight bits comes to 0 again, and what
-- stands before the table is read.
unfoldable pub all_known : Platform → ℕ → Startup → Option (Code × Startup)
unfolding new_clients
all_known h client_num s =
    if client_num == 255
    then none
    else some (
      ok 0,
      new_clients h client_num 1
          (record s { hbm_state = hbm_working; dev = record (s.dev) { dev_state = enabled } }),
    )

-- The outcome of the request for the properties of the client at an address.
unfoldable pub requested : Platform → ℕ → Code × Startup → Code × Startup
unfolding ish_hw_reset
requested h address (ok n, t) = (ok 0, record t { fw_client_index = address })
requested h address (err e, t) = (err eio, resetting_now h t)

-- The entry gets the address.
abbrev pub mark_entry : ℕ → ℕ → Startup → Startup
mark_entry client_num address s = record s {
  dev = record (s.dev) {
    fw_clients =
        set s.dev.fw_clients client_num
          (record (get_or s.dev.fw_clients client_num no_client) { client_id = address });
  };
}

-- The next client's entry gets its address, and its properties are requested.
unfoldable pub request_next : Platform → ℕ → ℕ → Startup → Option (Code × Startup)
unfolding requested ishtp_hbm_hdr
request_next h client_num address s =
    if not (ltb client_num (length s.dev.fw_clients))
    then none
    else some (
        requested h address (write (mark_entry client_num address s) (0x05 ∷ address ∷ 0 ∷ 0 ∷ [])))

unfoldable pub ishtp_hbm_prop_req : Platform → Startup → Option (Code × Startup)
unfolding find_next_bit all_known request_next
ishtp_hbm_prop_req h s =
    let next = find_next_bit s.fw_clients_map s.fw_client_index in
    if next == clients_max
    then all_known h s.fw_client_presentation_num s
    else request_next h s.fw_client_presentation_num next s

unfoldable pub ishtp_hbm_stop_req : Startup → Startup
unfolding ishtp_hbm_hdr
ishtp_hbm_stop_req s = (write s (0x02 ∷ 0 ∷ 0 ∷ 0 ∷ [])).1
