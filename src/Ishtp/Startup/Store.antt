-- ===== src/Ishtp/Startup/Store.antt =====
-- Properties are stored in the table of the firmware's clients, src/intel-ish-hid-linux-6.5/ishtp/hbm.c.
use ubuntu_elkhart_lake_pse.Prelude.{
  ℕ, ◌+◌, ◌<◌, ◌≡◌, refl, sym, ap, ◌∙◌, Bool, true, false, List, [], ◌∷◌, ◌++◌, some, arith, map,
  append_assoc, get_or, set, length, length-append, get_or-append, set-append, length-map,
  Bool-cases, inl, inr, incr8, ltb, ◌==◌, ◌||◌, not,
}
use mathlib.Core.Path.{subst}
use ubuntu_elkhart_lake_pse.Ishtp.Types.{DevState, is_enabled, is_init_clients, FwClient}
use ubuntu_elkhart_lake_pse.Ishtp.Startup.{
  is_client_properties, Platform, Startup, no_client, ish_hw_reset, ish_wakeup,
}
use ubuntu_elkhart_lake_pse.Ishtp.Startup.Exchange.{weight, reset}
use ubuntu_elkhart_lake_pse.Ishtp.Startup.Responses.{
  offered, with_props, offer_dma, store_props, props_res,
}
use ubuntu_elkhart_lake_pse.Ishtp.Startup.Fill.{
  reset_state_lem, IsPartial, Tracks, describe, prop_req-Tracks,
}
use ubuntu_elkhart_lake_pse.Ishtp.Startup.Addresses.{bits_from, length-addresses}

-- What a step that only resets or writes leaves alone.
pub record SameTable (s t : Startup) : Type 0 where
  pub table : t.dev.fw_clients ≡ s.dev.fw_clients
  pub hbm : t.hbm_state ≡ s.hbm_state
  pub map : t.fw_clients_map ≡ s.fw_clients_map
  pub at : t.fw_client_index ≡ s.fw_client_index
  pub count : t.fw_client_presentation_num ≡ s.fw_client_presentation_num

pub reset-SameTable : (h : Platform) (s : Startup) → SameTable s (reset h s)
unfolding ish_hw_reset ish_wakeup
reset-SameTable h s = ground arith

pub offer_dma-SameTable : (h : Platform) (s : Startup) → SameTable s (offer_dma h s)
unfolding offer_dma
offer_dma-SameTable h s = ground arith

offer_dma_state : (h : Platform) (s : Startup) → (offer_dma h s).dev.dev_state ≡ s.dev.dev_state
unfolding offer_dma
offer_dma_state h s = ground arith

incr8_small : (n : ℕ) → n < 255 → incr8 n ≡ n + 1
incr8_small n h = omega arith

stored :
    {A : Type 0} (xs ys : List A) (n : ℕ) (y v : A) (zs : List A)
    → ys ≡ xs ++ y ∷ zs
    → n ≡ length xs
    → set ys n v ≡ xs ++ v ∷ zs
stored xs ys n y v zs e k = rw (e, k) (set-append xs y zs v)

found :
    (xs ys : List FwClient) (n : ℕ) (y : FwClient) (zs : List FwClient)
    → ys ≡ xs ++ y ∷ zs
    → n ≡ length xs
    → get_or ys n no_client ≡ y
found xs ys n y zs e k = rw (e, k) (get_or-append xs y zs no_client)

pub some-injective : {A : Type 0} {a b : A} → some a ≡ some b → a ≡ b
some-injective e = cc

both_hold : (a b : Bool) → (not a || not b) ≡ false → (a ≡ true) × (b ≡ true)
both_hold a b e = ground (arith, e)

named_alike : (x a : ℕ) → not (x == a) ≡ false → x ≡ a
named_alike x a e = ground (arith, e)

pub init_not_enabled : (d : DevState) → is_init_clients d ≡ true → is_enabled d ≡ false
init_not_enabled d e = ground (arith, e)

map-append_one :
    {A B : Type 0} (f : A → B) (xs : List A) (x : A) (zs : List B)
    → map f (xs ++ x ∷ []) ++ zs ≡ map f xs ++ f x ∷ zs
map-append_one f [] x zs = refl
map-append_one f (y ∷ ys) x zs = ap (λ l. f y ∷ l) (map-append_one f ys x zs)

-- The map that the firmware sent, and the properties of the client at each address.
module _ (m : List Bool) (props : ℕ → FwClient) where
  pub keep-Tracks :
      {s t : Startup}
      → SameTable s t
      → (is_init_clients t.dev.dev_state ≡ true → is_init_clients s.dev.dev_state ≡ true)
      → (is_enabled t.dev.dev_state ≡ true → is_enabled s.dev.dev_state ≡ true)
      → Tracks m props s
      → Tracks m props t
  keep-Tracks same init on k = record {
    partial = λ i c.
        let p = k.partial (init i) (ap is_client_properties (sym same.hbm) ∙ c) in
        record {
          known = p.known;
          next = p.next;
          later = p.later;
          entry = p.entry;
          blank = p.blank;
          all = p.all;
          left = p.left;
          small = p.small;
          table = same.table ∙ p.table;
          asked = p.asked;
          room = p.room;
          at = same.at ∙ p.at;
          count = same.count ∙ p.count;
          same_map = same.map ∙ p.same_map;
        };
    complete = λ e. same.table ∙ k.complete (on e);
  }

  -- A reset keeps the table, and the device is as before or resetting.
  pub Tracks-reset : (h : Platform) (s : Startup) → Tracks m props s → Tracks m props (reset h s)
  Tracks-reset h s k = elim (reset_state_lem h s) [
    | inl e ↦
        keep-Tracks (reset-SameTable h s) (λ i. ap is_init_clients (sym e) ∙ i)
          (λ i. ap is_enabled (sym e) ∙ i) k
    | inr e ↦
        keep-Tracks (reset-SameTable h s) (λ i. absurd (cc (ap is_init_clients e)))
          (λ i. absurd (cc (ap is_enabled e))) k
  ]

  described :
      (a n id : ℕ) → a ≡ n → id ≡ n → record (props a) { client_id = id } ≡ describe m props n
  described a n id e k = rw (e, k) refl

  module _ (l : length m ≡ 256) (w : weight m < 255) (z : get_or m 255 false ≡ false) where
    known_small : (s : Startup) (p : IsPartial m props s) → length p.known < 255
    known_small s p =
        omega
          (arith, w, length-addresses m, ap length p.all, length-append p.known (p.next ∷ p.later))

    -- The properties of the client that was asked for are stored.
    pub store-Tracks :
        (h : Platform) (s : Startup) (entry : FwClient) (a : ℕ)
        → (p : IsPartial m props s) → entry.client_id ≡ a
        → a ≡ p.next
        → is_enabled s.dev.dev_state ≡ false
        → (t : Startup) × (store_props h entry (props a) s ≡ some t) × Tracks m props t
    unfolding store_props
    store-Tracks h s entry a p mine asked off =
        let u = with_props entry (props a) s in
        let filled : u.dev.fw_clients ≡ map (describe m props) (p.known ++ p.next ∷ []) ++ p.blank =
          stored (map (describe m props) p.known) s.dev.fw_clients s.fw_client_presentation_num
            p.entry (record (props a) { client_id = entry.client_id }) p.blank p.table
            (p.count ∙ sym (length-map (describe m props) p.known))
          ∙ ap (λ v. map (describe m props) p.known ++ v ∷ p.blank)
              (described a p.next entry.client_id asked (mine ∙ asked))
          ∙ sym (map-append_one (describe m props) p.known p.next p.blank) in
        let behind : incr8 s.fw_client_index ≡ p.next + 1 =
          ap incr8 p.at ∙ incr8_small p.next p.small in
        let counted : incr8 s.fw_client_presentation_num ≡ length (p.known ++ p.next ∷ []) =
          ap incr8 p.count
          ∙ incr8_small (length p.known) (known_small s p)
          ∙ sym (length-append p.known (p.next ∷ [])) in
        let (r, t, e, k) =
          prop_req-Tracks m props l w z h u (p.known ++ p.next ∷ []) p.later p.blank
            (p.all ∙ sym (append_assoc p.known (p.next ∷ []) p.later))
            (ap (bits_from m 0) behind ∙ p.left) filled p.room counted p.same_map off in
        (
          offer_dma h t,
          ap (offered h) e,
          keep-Tracks (offer_dma-SameTable h t)
              (λ i. ap is_init_clients (sym (offer_dma_state h t)) ∙ i)
              (λ i. ap is_enabled (sym (offer_dma_state h t)) ∙ i) k,
        )

    entry_lem :
        (s : Startup) (p : IsPartial m props s)
        → get_or s.dev.fw_clients s.fw_client_presentation_num no_client ≡ p.entry
    entry_lem s p =
        found (map (describe m props) p.known) s.dev.fw_clients s.fw_client_presentation_num p.entry
          p.blank p.table (p.count ∙ sym (length-map (describe m props) p.known))

    pub props_res-Tracks :
        (h : Platform) (a status : ℕ) (s t : Startup)
        → Tracks m props s
        → props_res h a status (props a) s ≡ some t
        → Tracks m props t
    unfolding props_res
    props_res-Tracks h a status s t k e =
        let entry = get_or s.dev.fw_clients s.fw_client_presentation_num no_client in
        let back = λ (q : some (reset h s) ≡ some t).
          subst (Tracks m props) (some-injective q) (Tracks-reset h s k) in
        elim (Bool-cases (not (status == 0) || length s.dev.fw_clients == 0)) [
          | inl c ↦ (back (rw c at e))
          | inr c ↦
              elim (Bool-cases (not (ltb s.fw_client_presentation_num (length s.dev.fw_clients)))) [
                | inl d ↦ absurd (cc (rw (c, d) at e))
                | inr d ↦ elim (Bool-cases (not (entry.client_id == a))) [
                  | inl f ↦ (back (rw (c, d, f) at e))
                  | inr f ↦
                      elim (Bool-cases (
                        not (is_init_clients s.dev.dev_state)
                        || not (is_client_properties s.hbm_state))) [
                          | inl g ↦ (back (rw (c, d, f, g) at e))
                          | inr g ↦
                              let (init, acquiring) =
                                both_hold (is_init_clients s.dev.dev_state)
                                  (is_client_properties s.hbm_state) g in
                              let p = k.partial init acquiring in
                              let named : entry.client_id ≡ a = named_alike entry.client_id a f in
                              let asked : a ≡ p.next =
                                sym named ∙ ap (λ x. x.client_id) (entry_lem s p) ∙ p.asked in
                              let (u, stored, tracked) =
                                store-Tracks h s entry a p named asked
                                  (init_not_enabled s.dev.dev_state init) in
                              subst (Tracks m props)
                                (some-injective (sym stored ∙ rw (c, d, f, g) at e)) tracked
                        ]
                ]
              ]
        ]
