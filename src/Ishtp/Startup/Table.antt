-- ===== src/Ishtp/Startup/Table.antt =====
-- The table of the firmware's clients while the bus starts, src/intel-ish-hid-linux-6.5/ishtp/hbm.c.
use ubuntu_elkhart_lake_pse.Prelude.{
  ℕ, zero, suc, ◌+◌, ◌%◌, ◌<◌, ◌≡◌, refl, sym, ap, ◌∙◌, Bool, true, false, ◌&&◌, List, [], some,
  arith, map, get_or, length, Bool-cases, ◌⊎◌, inl, inr, ◌==◌,
}
use mathlib.Core.Path.{subst}
use ubuntu_elkhart_lake_pse.Ishtp.Types.{
  Code, DevState, init_clients, enabled, resetting, disabled, is_enabled, is_init_clients, FwClient,
  Ipc,
}
use ubuntu_elkhart_lake_pse.Ishtp.Rings.{kmalloc}
use ubuntu_elkhart_lake_pse.Ishtp.Startup.{
  hbm_enum_clients, is_client_properties, Platform, Startup, no_client, is_start, is_enum_clients,
  hbm_started,
}
use ubuntu_elkhart_lake_pse.Ishtp.Startup.Exchange.{
  weight, ishtp_hbm_stop_req, replicate, ishtp_hbm_enum_clients_req, ishtp_hbm_prop_req,
}
use ubuntu_elkhart_lake_pse.Ishtp.Startup.Responses.{
  props_res, enum_res, with_map, begin_properties, left_in, start_res, stop_res, fw_stop_req,
  dma_alloc_response,
}
use ubuntu_elkhart_lake_pse.Ishtp.Startup.Fill.{Tracks, describe, prop_req-Tracks}
use ubuntu_elkhart_lake_pse.Ishtp.Startup.Addresses.{addresses, bits_from, length-addresses}
use ubuntu_elkhart_lake_pse.Ishtp.Startup.Past.{
  IsPast, reset-IsPast, enum_res-again, enum_res-IsPast, props_res-IsPast, start_res-IsPast,
}
use ubuntu_elkhart_lake_pse.Ishtp.Startup.Faults.{taken, no_memory_faults}
use ubuntu_elkhart_lake_pse.Ishtp.Startup.Store.{
  init_not_enabled, SameTable, keep-Tracks, Tracks-reset, props_res-Tracks, some-injective,
}

still_enabled :
    {c d : DevState} → (c ≡ d) ⊎ (c ≡ resetting) → is_enabled c ≡ true → is_enabled d ≡ true
still_enabled (inl e) on = ap is_enabled (sym e) ∙ on
still_enabled (inr e) on = absurd (cc (ap is_enabled e))

zero-or-pos : (n : ℕ) → (n ≡ 0) ⊎ (0 < n)
zero-or-pos zero = inl refl
zero-or-pos (suc n) = inr (omega arith)

suc-ne-zero : (k : ℕ) → (suc k == 0) ≡ false
suc-ne-zero k = ground arith

-- What the allocation leaves, if it is granted or not needed.
begin_counted :
    (h : Platform) (m : List Bool) (s : Startup) (k : ℕ)
    → s.dev.fw_clients ≡ []
    → (s.fw_clients_num + weight m) % 256 ≡ k
    → ((kmalloc s.dev).0 ≡ true) ⊎ (k ≡ 0)
    → ((begin_properties h (with_map m s)).dev.fw_clients ≡ replicate k no_client)
      × ((begin_properties h (with_map m s)).dev.dev_state ≡ s.dev.dev_state)
unfolding begin_properties kmalloc
begin_counted h m s zero e n g = rw n (e, refl)
begin_counted h m s (suc k) e n (inl g) = rw (n, suc-ne-zero k, g) (refl, refl)
begin_counted h m s (suc k) e n (inr g) = absurd (omega (arith, g))

begin_lem :
    (h : Platform) (m : List Bool) (s : Startup)
    → weight m < 255
    → s.dev.fw_clients ≡ []
    → s.fw_clients_num ≡ 0
    → ((kmalloc s.dev).0 ≡ true) ⊎ (weight m ≡ 0)
    → ((begin_properties h (with_map m s)).dev.fw_clients ≡ replicate (weight m) no_client)
      × ((begin_properties h (with_map m s)).dev.dev_state ≡ s.dev.dev_state)
begin_lem h m s w e n g = begin_counted h m s (weight m) e (omega (arith, w, n)) g

-- The map and the counters are set.
begin_counters :
    (h : Platform) (m : List Bool) (s : Startup)
    → ((begin_properties h (with_map m s)).fw_clients_map ≡ m)
      × ((begin_properties h (with_map m s)).fw_client_index ≡ 0)
      × ((begin_properties h (with_map m s)).fw_client_presentation_num ≡ 0)
unfolding begin_properties kmalloc
begin_counters h m s = ground arith

length-replicate : {A : Type 0} (n : ℕ) (a : A) → length (replicate n a) ≡ n
length-replicate zero a = refl
length-replicate (suc n) a = ap suc (length-replicate n a)

enum_clients_req_lem :
    (h : Platform) (s : Startup)
    → ((ishtp_hbm_enum_clients_req h s).hbm_state ≡ hbm_enum_clients)
      × ((ishtp_hbm_enum_clients_req h s).dev.fw_clients ≡ s.dev.fw_clients)
      × (((ishtp_hbm_enum_clients_req h s).dev.dev_state ≡ s.dev.dev_state)
          ⊎ ((ishtp_hbm_enum_clients_req h s).dev.dev_state ≡ resetting))
unfolding ishtp_hbm_enum_clients_req
enum_clients_req_lem h s = ground arith

-- The map that the firmware sent, and the properties of the client at each address.
module _ (m : List Bool) (props : ℕ → FwClient) where
  -- The states after the response to the enumeration was taken, on a device that knew no client: the
  -- firmware sends any message of the start, as often as it likes and in any order, but the map of its
  -- clients and the properties of a client always the same; meanwhile the queue of outgoing messages changes.
  pub data Reached : Startup → Type 0 where
    enumerated :
        (h : Platform) (s t : Startup)
        → s.dev.fw_clients ≡ []
        → s.fw_clients_num ≡ 0
        → s.dev.dev_state ≡ init_clients
        → s.hbm_state ≡ hbm_enum_clients
        → enum_res h m s ≡ some t
        → Reached t
    enumerated_again :
        (h : Platform) (s t : Startup) → Reached s → enum_res h m s ≡ some t → Reached t
    answered :
        (h : Platform) (a status : ℕ) (s t : Startup)
        → Reached s
        → props_res h a status (props a) s ≡ some t
        → Reached t
    started :
        (h : Platform) (supported : Bool) (major minor : ℕ) (s : Startup)
        → Reached s
        → Reached (start_res h supported major minor s)
    stopped : (h : Platform) (s : Startup) → Reached s → Reached (stop_res h s)
    fw_stopped : (s : Startup) → Reached s → Reached (fw_stop_req s)
    dma_answered : (s : Startup) → Reached s → Reached (dma_alloc_response s)
    queue_moved :
        (q : Ipc) (s : Startup)
        → Reached s
        → Reached (record s { dev = record (s.dev) { ipc = q } })

  as_before :
      {s t : Startup}
      → SameTable s t
      → t.dev.dev_state ≡ s.dev.dev_state
      → Tracks m props s
      → Tracks m props t
  as_before same d =
      keep-Tracks m props same (λ i. ap is_init_clients (sym d) ∙ i)
        (λ e. ap is_enabled (sym d) ∙ e)

  -- The state of the protocol is none in which properties are acquired.
  elsewhere :
      {s t : Startup}
      → Tracks m props s
      → t.dev.fw_clients ≡ s.dev.fw_clients
      → is_client_properties t.hbm_state ≡ false
      → (is_enabled t.dev.dev_state ≡ true → is_enabled s.dev.dev_state ≡ true)
      → Tracks m props t
  elsewhere k e off on = record {
    partial = λ i p. absurd (cc);
    complete = λ d. e ∙ k.complete (on d);
  }

  module _ (l : length m ≡ 256) (w : weight m < 255) (z : get_or m 255 false ≡ false) where
    enough-Tracks :
        (h : Platform) (s : Startup)
        → s.dev.fw_clients ≡ []
        → s.fw_clients_num ≡ 0
        → s.dev.dev_state ≡ init_clients
        → ((kmalloc s.dev).0 ≡ true) ⊎ (weight m ≡ 0)
        → (r : Code) × (t : Startup) × (ishtp_hbm_prop_req h (begin_properties h (with_map m s))
            ≡ some (r, t))
          × Tracks m props t
    unfolding addresses
    enough-Tracks h s empty none_known init g =
        let u = begin_properties h (with_map m s) in
        let (table, state) = begin_lem h m s w empty none_known g in
        let (same, at, count) = begin_counters h m s in
        prop_req-Tracks m props l w z h u [] (addresses m) (replicate (weight m) no_client) refl
          (ap (bits_from m 0) at) table
          (length-replicate (weight m) no_client ∙ sym (length-addresses m)) count same
          (init_not_enabled u.dev.dev_state (ap is_init_clients (state ∙ init)))

    enum_res-Tracks :
        (h : Platform) (s t : Startup)
        → s.dev.fw_clients ≡ []
        → s.fw_clients_num ≡ 0
        → s.dev.dev_state ≡ init_clients
        → s.hbm_state ≡ hbm_enum_clients
        → enum_res h m s ≡ some t
        → Tracks m props t
    enum_res-Tracks h s t empty none_known init hbm e =
        let done = λ (g : ((kmalloc s.dev).0 ≡ true) ⊎ (weight m ≡ 0)).
          let (r, u, made, tracked) = enough-Tracks h s empty none_known init g in
          let now = taken h m s (cc (ap is_init_clients init, ap is_enum_clients hbm)) in
          subst (Tracks m props) (some-injective (sym (now ∙ ap left_in made) ∙ e)) tracked in
        elim (Bool-cases (kmalloc s.dev).0) [
          | inl granted ↦ done (inl granted)
          | inr refused ↦ elim (zero-or-pos (weight m)) [
            | inl no_bit ↦ done (inr no_bit)
            | inr some_bit ↦
                let fault = no_memory_faults h m s l some_bit init hbm empty refused in absurd (cc)
          ]
        ]

    start_res-Tracks :
        (h : Platform) (supported : Bool) (major minor : ℕ) (s : Startup)
        → Tracks m props s
        → Tracks m props (start_res h supported major minor s)
    unfolding start_res ishtp_hbm_stop_req
    start_res-Tracks h false major minor s k = elsewhere k refl refl (λ d. d)
    start_res-Tracks h true major minor s k =
        let t : Startup = record s { major_version = 1; minor_version = 0 } in
        elim (Bool-cases (is_init_clients s.dev.dev_state && is_start s.hbm_state)) [
          | inl first ↦
              let (hbm, table, state) =
                enum_clients_req_lem h (record t { hbm_state = hbm_started }) in
              rw first
                (elsewhere k table (ap is_client_properties hbm) (λ d. still_enabled state d))
          | inr other ↦ rw other (
              Tracks-reset m props h t (
                as_before (record { table = refl; hbm = refl; map = refl; at = refl; count = refl })
                  refl k))
        ]

    -- The map that comes again is the same.
    with_map-Tracks : (s : Startup) → Tracks m props s → Tracks m props (with_map m s)
    with_map-Tracks s k = record {
      partial = λ i c.
          let p = k.partial i c in
          record {
            known = p.known;
            next = p.next;
            later = p.later;
            entry = p.entry;
            blank = p.blank;
            all = p.all;
            left = p.left;
            small = p.small;
            table = p.table;
            asked = p.asked;
            room = p.room;
            at = p.at;
            count = p.count;
            same_map = refl;
          };
      complete = k.complete;
    }

    Reached-IsPast : (s : Startup) → Reached s → IsPast s
    unfolding stop_res fw_stop_req dma_alloc_response
    Reached-IsPast t (enumerated h s _ a b c d e) =
        enum_res-IsPast h m s t (cc (ap is_init_clients c, ap is_enum_clients d)) e
    Reached-IsPast t (enumerated_again h s _ r e) =
        let p = Reached-IsPast s r in
        subst IsPast (some-injective (sym (enum_res-again h m s p) ∙ e))
          (reset-IsPast h (with_map m s) p)
    Reached-IsPast t (answered h a status s _ r e) =
        props_res-IsPast h a status (props a) s t (Reached-IsPast s r) e
    Reached-IsPast _ (started h supported major minor s r) =
        start_res-IsPast h supported major minor s (Reached-IsPast s r)
    Reached-IsPast _ (stopped h s r) =
        reset-IsPast h (record s { dev = record (s.dev) { dev_state = disabled } })
          (Reached-IsPast s r)
    Reached-IsPast _ (fw_stopped s r) = (refl, refl)
    Reached-IsPast _ (dma_answered s r) = Reached-IsPast s r
    Reached-IsPast _ (queue_moved q s r) = Reached-IsPast s r

    Reached-Tracks : (s : Startup) → Reached s → Tracks m props s
    unfolding stop_res fw_stop_req dma_alloc_response
    Reached-Tracks t (enumerated h s _ a b c d e) = enum_res-Tracks h s t a b c d e
    Reached-Tracks t (enumerated_again h s _ r e) =
        subst (Tracks m props)
          (some-injective (sym (enum_res-again h m s (Reached-IsPast s r)) ∙ e))
          (Tracks-reset m props h (with_map m s) (with_map-Tracks s (Reached-Tracks s r)))
    Reached-Tracks t (answered h a status s _ r e) =
        props_res-Tracks m props l w z h a status s t (Reached-Tracks s r) e
    Reached-Tracks _ (started h supported major minor s r) =
        start_res-Tracks h supported major minor s (Reached-Tracks s r)
    Reached-Tracks _ (stopped h s r) =
        Tracks-reset m props h (record s { dev = record (s.dev) { dev_state = disabled } })
          (keep-Tracks m props
            (record { table = refl; hbm = refl; map = refl; at = refl; count = refl })
            (λ i. absurd (cc)) (λ d. absurd (cc)) (Reached-Tracks s r))
    Reached-Tracks _ (fw_stopped s r) = elsewhere (Reached-Tracks s r) refl refl (λ d. d)
    Reached-Tracks _ (dma_answered s r) =
        as_before (record { table = refl; hbm = refl; map = refl; at = refl; count = refl }) refl
          (Reached-Tracks s r)
    Reached-Tracks _ (queue_moved q s r) =
        as_before (record { table = refl; hbm = refl; map = refl; at = refl; count = refl }) refl
          (Reached-Tracks s r)

    -- However the messages of the start come, repeated or unexpected, and whatever writes, allocations and resets
    -- fail, as long as the firmware reports the same map and the same properties of a client each time: if the
    -- device is enabled, then the table of its clients holds exactly the clients of the map that the
    -- firmware sent, in the order of their addresses, each with its address and with the properties that the
    -- firmware gave for this address. There are fewer than 255 clients, and none has address 255.
    pub enabled_table :
        (s : Startup)
        → Reached s
        → s.dev.dev_state ≡ enabled
        → s.dev.fw_clients ≡ map (describe m props) (addresses m)
    enabled_table s r e = (Reached-Tracks s r).complete (ap is_enabled e)
