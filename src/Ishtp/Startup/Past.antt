-- ===== src/Ishtp/Startup/Past.antt =====
-- Once the enumeration is answered, no message of the start leads back to it, src/intel-ish-hid-linux-6.5/ishtp/hbm.c:
-- only a reset that is completed does.
use ubuntu_elkhart_lake_pse.Prelude.{
  ℕ, zero, suc, ◌+◌, ◌≡◌, refl, ap, ◌∙◌, Bool, Bool-cases, true, false, not, ◌&&◌, ◌||◌, List, [],
  ◌∷◌, sym, Option, none, some, arith, inl, inr, ◌==◌, ltb, length, get_or,
}
use ubuntu_elkhart_lake_pse.Ishtp.Types.{Code, ok, err, is_init_clients, FwClient}
use ubuntu_elkhart_lake_pse.Ishtp.Startup.{
  HbmState, is_start, is_enum_clients, is_client_properties, Platform, Startup, no_client,
  ish_hw_reset, ish_wakeup, ishtp_bus_new_client,
}
use ubuntu_elkhart_lake_pse.Ishtp.Startup.Exchange.{
  reset, write, mark_entry, requested, new_clients, all_known, request_next, find_next_bit,
  ishtp_hbm_prop_req, ishtp_hbm_stop_req,
}
use ubuntu_elkhart_lake_pse.Ishtp.Startup.Responses.{
  with_map, with_props, begin_properties, left_in, offered, store_props, start_res, enum_res,
  props_res,
}
use ubuntu_elkhart_lake_pse.Ishtp.Startup.Store.{reset-SameTable, offer_dma-SameTable}

-- The protocol neither waits for the response to the start nor for that to the enumeration.
abbrev pub AfterEnum : HbmState → Type 0
AfterEnum b = (is_start b ≡ false) × (is_enum_clients b ≡ false)

abbrev pub IsPast : Startup → Type 0
IsPast s = AfterEnum s.hbm_state

abbrev PastAfter : Option Startup → Type 0
PastAfter none = Unit
PastAfter (some s) = IsPast s

abbrev PastWith : Option (Code × Startup) → Type 0
PastWith none = Unit
PastWith (some (r, s)) = IsPast s

alike : {b c : HbmState} → c ≡ b → AfterEnum b → AfterEnum c
alike e (a, b) = (ap is_start e ∙ a, ap is_enum_clients e ∙ b)

pub reset-IsPast : (h : Platform) (s : Startup) → IsPast s → IsPast (reset h s)
reset-IsPast h s p = alike (reset-SameTable h s).hbm p

new_client_hbm : (h : Platform) (s : Startup) → (ishtp_bus_new_client h s).1.hbm_state ≡ s.hbm_state
unfolding ishtp_bus_new_client
new_client_hbm h s = ground arith

new_clients_hbm :
    (h : Platform) (rounds n : ℕ) (s : Startup) → (new_clients h rounds n s).hbm_state ≡ s.hbm_state
unfolding new_clients
new_clients_hbm h zero n s = refl
new_clients_hbm h (suc rounds) n s =
    new_clients_hbm h rounds (n + 1)
      (ishtp_bus_new_client h (record s { fw_client_presentation_num = n })).1
    ∙ new_client_hbm h (record s { fw_client_presentation_num = n })

all_known-PastWith : (h : Platform) (n : ℕ) (s : Startup) → PastWith (all_known h n s)
unfolding all_known
all_known-PastWith h n s = elim (Bool-cases (n == 255)) [
  | inl e ↦ rw e tt
  | inr e ↦ rw e (alike (new_clients_hbm h n 1 _) (refl, refl))
]

requested_hbm :
    (h : Platform) (a : ℕ) (o : Code × Startup) → (requested h a o).1.hbm_state ≡ o.1.hbm_state
unfolding requested ish_hw_reset ish_wakeup
requested_hbm h a (ok n, t) = refl
requested_hbm h a (err e, t) = ground arith

request_next-PastWith :
    (h : Platform) (n a : ℕ) (s : Startup) → IsPast s → PastWith (request_next h n a s)
unfolding request_next
request_next-PastWith h n a s p = elim (Bool-cases (not (ltb n (length s.dev.fw_clients)))) [
  | inl e ↦ rw e tt
  | inr e ↦ rw e (alike (requested_hbm h a (write (mark_entry n a s) (0x05 ∷ a ∷ 0 ∷ 0 ∷ []))) p)
]

prop_req-PastWith : (h : Platform) (s : Startup) → IsPast s → PastWith (ishtp_hbm_prop_req h s)
unfolding ishtp_hbm_prop_req
prop_req-PastWith h s p =
    let next = find_next_bit s.fw_clients_map s.fw_client_index in
    elim (Bool-cases (next == 256)) [
      | inl e ↦ rw e (all_known-PastWith h s.fw_client_presentation_num s)
      | inr e ↦ rw e (request_next-PastWith h s.fw_client_presentation_num next s p)
    ]

left_in-PastAfter : (o : Option (Code × Startup)) → PastWith o → PastAfter (left_in o)
left_in-PastAfter none p = tt
left_in-PastAfter (some (r, s)) p = p

offered-PastAfter :
    (h : Platform) (o : Option (Code × Startup)) → PastWith o → PastAfter (offered h o)
offered-PastAfter h none p = tt
offered-PastAfter h (some (r, s)) p = alike (offer_dma-SameTable h s).hbm p

-- The first response to the enumeration.
enum_res-PastAfter :
    (h : Platform) (m : List Bool) (s : Startup)
    → (is_init_clients s.dev.dev_state && is_enum_clients s.hbm_state) ≡ true
    → PastAfter (enum_res h m s)
unfolding enum_res begin_properties
enum_res-PastAfter h m s e =
    rw e
      (left_in-PastAfter _ (prop_req-PastWith h (begin_properties h (with_map m s)) (refl, refl)))

-- A further one, whose map is kept, resets the device.
pub enum_res-again :
    (h : Platform) (m : List Bool) (s : Startup)
    → IsPast s
    → enum_res h m s ≡ some (reset h (with_map m s))
unfolding enum_res
enum_res-again h m s (a, b) = elim (Bool-cases (is_init_clients s.dev.dev_state)) [
  | inl e ↦ rw (e, b) refl
  | inr e ↦ rw e refl
]

props_res-PastAfter :
    (h : Platform) (a status : ℕ) (props : FwClient) (s : Startup)
    → IsPast s
    → PastAfter (props_res h a status props s)
unfolding props_res store_props
props_res-PastAfter h a status props s p =
    let entry = get_or s.dev.fw_clients s.fw_client_presentation_num no_client in
    let back = reset-IsPast h s p in
    elim (Bool-cases (not (status == 0) || length s.dev.fw_clients == 0)) [
      | inl c ↦ rw c back
      | inr c ↦
          elim (Bool-cases (not (ltb s.fw_client_presentation_num (length s.dev.fw_clients)))) [
            | inl d ↦ rw (c, d) tt
            | inr d ↦ elim (Bool-cases (not (entry.client_id == a))) [
              | inl f ↦ rw (c, d, f) back
              | inr f ↦
                  elim (Bool-cases (
                    not (is_init_clients s.dev.dev_state)
                    || not (is_client_properties s.hbm_state))) [
                      | inl g ↦ rw (c, d, f, g) back
                      | inr g ↦
                          rw (c, d, f, g)
                            (offered-PastAfter h _
                              (prop_req-PastWith h (with_props entry props s) p))
                    ]
            ]
          ]
    ]

left-IsPast : (o : Option Startup) (t : Startup) → PastAfter o → o ≡ some t → IsPast t
left-IsPast none t p e = absurd (cc)
left-IsPast (some s) t p e = let same : s ≡ t = cc in alike (ap (λ x. x.hbm_state) (sym same)) p

pub enum_res-IsPast :
    (h : Platform) (m : List Bool) (s t : Startup)
    → (is_init_clients s.dev.dev_state && is_enum_clients s.hbm_state) ≡ true
    → enum_res h m s ≡ some t
    → IsPast t
enum_res-IsPast h m s t e q = left-IsPast (enum_res h m s) t (enum_res-PastAfter h m s e) q

pub props_res-IsPast :
    (h : Platform) (a status : ℕ) (props : FwClient) (s t : Startup)
    → IsPast s
    → props_res h a status props s ≡ some t
    → IsPast t
props_res-IsPast h a status props s t p e =
    left-IsPast (props_res h a status props s) t (props_res-PastAfter h a status props s p) e

pub start_res-IsPast :
    (h : Platform) (supported : Bool) (major minor : ℕ) (s : Startup)
    → IsPast s
    → IsPast (start_res h supported major minor s)
unfolding start_res ishtp_hbm_stop_req
start_res-IsPast h false major minor s p = (refl, refl)
start_res-IsPast h true major minor s (a, b) =
    elim (Bool-cases (is_init_clients s.dev.dev_state && is_start s.hbm_state)) [
      | inl e ↦ absurd (ground (arith, a, e))
      | inr e ↦ rw e (reset-IsPast h (record s { major_version = 1; minor_version = 0 }) (a, b))
    ]
