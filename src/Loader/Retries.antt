-- ===== src/Loader/Retries.antt =====
-- How often a load is tried, src/intel-ish-hid-linux-6.5/ishtp-fw-loader.c: what a load does to the counter of
-- the retries and to the hub.
use ubuntu_elkhart_lake_pse.Prelude.{
  ℕ, zero, suc, ◌+◌, ◌-◌, ◌≤◌, ◌<◌, ◌≡◌, ◌⊎◌, refl, ◌∙◌, Bool, Bool-cases, true, false, not, List,
  Option, none, some, arith, inl, inr, ltb, ltb→lt, length, if◌then◌else◌,
}
use ubuntu_elkhart_lake_pse.Ishtp.Types.{Errno, Code, ok, err, enomem}
use ubuntu_elkhart_lake_pse.Loader.{Loader, Shim, Outcome, done, dead_write, endless, ◌>>=◌}
use ubuntu_elkhart_lake_pse.Loader.Xfer.{
  has_dma, has_ishtp, Capability, checked, ish_query_loader_prop, xfer_loop, ipc_fragment,
  dma_fragment, dma_payload, ish_fw_xfer_ishtp, ish_fw_xfer_direct_dma, ish_fw_start, returning,
}
use ubuntu_elkhart_lake_pse.Loader.Image.{dma_payload-le}
use ubuntu_elkhart_lake_pse.Loader.Steady.{
  Steady, >>=-Steady, if-Steady, send-Steady, xfer_loop-Steady,
}
use ubuntu_elkhart_lake_pse.Loader.Load.{
  Kernel, give_up, or_give_up, transfer, start, after_query, load_fw_from_host, load_until,
}

module _ (E : Type 0) where
  returning-Steady : {A : Type 0} (a : A) (s : Loader) → Steady E s (returning a s)
  returning-Steady a s = (refl, refl)

  checked-Steady : (n : ℕ) (c : Code) (s : Loader) → Steady E s (checked n c s)
  unfolding checked
  checked-Steady n (err e) s = (refl, refl)
  checked-Steady n (ok rv) s = ground arith

  query-Steady :
      (shim : Shim) (image : List ℕ) (s : Loader) → Steady E s (ish_query_loader_prop shim image s)
  unfolding ish_query_loader_prop
  query-Steady shim image s =
      >>=-Steady E s _ returning
        (>>=-Steady E s _ (checked (length image)) (send-Steady E shim _ _ 32 s)
          (λ c t. checked-Steady (length image) c t))
        (λ a t. returning-Steady a t)

  start-Steady : (shim : Shim) (s : Loader) → Steady E s (ish_fw_start shim s)
  unfolding ish_fw_start
  start-Steady shim s =
      >>=-Steady E s _ returning (send-Steady E shim _ _ 4 s) (λ a t. returning-Steady a t)

  -- What the kernel is taken to do: images are shorter than 2 GB. If it grants a DMA buffer of no bytes, that is a
  -- reason.
  abbrev IsSound : Kernel → Type 0
  IsSound k = (length k.image < 2147483648) × ((p : ℕ) → k.dma_alloc 0 ≡ some p → E)

  positive :
      (f : ℕ → Option ℕ) (n p fuel : ℕ)
      → ((q : ℕ) → f 0 ≡ some q → E)
      → f n ≡ some p
      → ((0 < n) × (fuel < suc fuel)) ⊎ E
  positive f zero p fuel z e = inr (z p e)
  positive f (suc n) p fuel z e = inl (omega arith, omega arith)

  dma-Steady :
      (dma_alloc : ℕ → Option ℕ) (limit : ℕ) (shim : Shim) (image : List ℕ) (c : Capability)
      (s : Loader)
      → length image < 2147483648
      → ((p : ℕ) → dma_alloc 0 ≡ some p → E)
      → Steady E s (ish_fw_xfer_direct_dma dma_alloc limit shim image c s)
  unfolding ish_fw_xfer_direct_dma
  dma-Steady dma_alloc limit shim image c s k z = allocated (dma_alloc payload) refl
    where
      payload : ℕ
      payload = dma_payload (length image) c.max_dma_buf_size limit

      whole_left :
          ((0 < payload) × (length image < suc (length image))) ⊎ E
          → ((0 < payload) × (length image - 0 < suc (length image))) ⊎ E
      whole_left (inl (p, l)) = inl (p, omega arith)
      whole_left (inr r) = inr r

      allocated :
          (o : Option ℕ)
          → dma_alloc payload ≡ o
          → Steady E s (elim o as (λ x. Outcome Code) [
            | none ↦ done (err enomem) (record s { flag_retry = true })
            | some phys ↦
                xfer_loop (suc (length image)) shim (dma_fragment phys) payload image 0 (ok 0) s
                >>= returning
          ])
      allocated none e = (refl, refl)
      allocated (some phys) e =
          >>=-Steady E s _ returning
            (xfer_loop-Steady E shim (dma_fragment phys) payload image
              (omega (arith, dma_payload-le (length image) c.max_dma_buf_size limit))
              (suc (length image)) 0 (ok 0) s
              (whole_left (positive dma_alloc payload phys (length image) z e)))
            (λ a t. returning-Steady a t)

  ishtp-Steady :
      (allocated : Bool) (shim : Shim) (image : List ℕ) (s : Loader)
      → length image < 2147483648
      → Steady E s (ish_fw_xfer_ishtp allocated shim image s)
  unfolding ish_fw_xfer_ishtp
  ishtp-Steady false shim image s k = (refl, refl)
  ishtp-Steady true shim image s k =
      >>=-Steady E s _ returning
        (>>=-Steady E s _ _
          (xfer_loop-Steady E shim ipc_fragment 3904 image (omega arith) (suc (length image)) 0
            (ok 0) s (inl (omega arith, omega arith)))
          (λ c t. (refl, refl)))
        (λ a t. returning-Steady a t)

  transfer-Steady :
      (k : Kernel) (shim : Shim) (c : Capability) (s : Loader)
      → IsSound k
      → Steady E s (transfer k shim c s)
  unfolding transfer
  transfer-Steady k shim c s (small, none_empty) =
      if-Steady E (has_dma c.xfer_mode) s _ _
        (dma-Steady k.dma_alloc k.dma_buf_size_limit shim k.image c s small none_empty)
        (if-Steady E (has_ishtp c.xfer_mode) s _ _
          (ishtp-Steady k.fragment_buf shim k.image s small) (refl, refl))

  -- How a load may end: without a reset of the hub, or with one, which is counted, and only with fewer
  -- than three before.
  abbrev Tried : Loader → Outcome Code → Type 0
  Tried s (done c t) =
      (t.resets ≡ s.resets)
      ⊎ ((t.resets ≡ s.resets + 1) × (s.retry_count < 3) × (t.retry_count ≡ s.retry_count + 1))
  Tried s dead_write = Unit
  Tried s endless = E

  give_up-Tried : (e : Errno) (s : Loader) → Tried s (give_up e s)
  unfolding give_up
  give_up-Tried e s = elim (Bool-cases s.flag_retry) [
    | inr f ↦ rw f (inl refl)
    | inl f ↦ elim (Bool-cases (ltb s.retry_count 3)) [
      | inl g ↦ rw (f, g) (inr (refl, ltb→lt s.retry_count 3 g, refl))
      | inr g ↦ rw (f, g) (inl refl)
    ]
  ]

  >>=-Tried :
      {A : Type 0} (s : Loader) (m : Outcome A) (f : A → Loader → Outcome Code)
      → Steady E s m
      → ((a : A) (t : Loader) → Tried t (f a t))
      → Tried s (m >>= f)
  >>=-Tried s (done a t) f (p, q) k = carry (f a t) (k a t)
    where
      carry : (o : Outcome Code) → Tried t o → Tried s o
      carry (done b u) (inl x) = inl (x ∙ p)
      carry (done b u) (inr (x, y, z)) =
          inr (omega (arith, x, p), omega (arith, y, q), omega (arith, z, q))
      carry dead_write h = tt
      carry endless h = h
  >>=-Tried s dead_write f h k = tt
  >>=-Tried s endless f h k = h

  start-Tried : (shim : Shim) (s : Loader) → Tried s (start shim s)
  unfolding start
  start-Tried shim s = >>=-Tried s (ish_fw_start shim s) _ (start-Steady shim s) by_code
    where
      by_code : (c : Code) (t : Loader) → Tried t (or_give_up (done (ok 0)) c t)
      by_code (err e) t = give_up-Tried e t
      by_code (ok n) t = inl refl

  after_query-Tried :
      (k : Kernel) (shim : Shim) (o : Code × Capability) (s : Loader)
      → IsSound k
      → Tried s (after_query k shim o s)
  unfolding after_query
  after_query-Tried k shim (err e, c) s h = give_up-Tried e s
  after_query-Tried k shim (ok n, c) s h =
      >>=-Tried s (transfer k shim c s) _ (transfer-Steady k shim c s h) by_code
    where
      by_code : (c : Code) (t : Loader) → Tried t (or_give_up (start shim) c t)
      by_code (err e) t = give_up-Tried e t
      by_code (ok n) t = start-Tried shim t

  load-Tried :
      (k : Kernel) (shim : Shim) (s : Loader) → IsSound k → Tried s (load_fw_from_host k shim s)
  unfolding load_fw_from_host
  load-Tried k shim s h = named k.filename
    where
      t : Loader
      t = record s { flag_retry = false }

      asked :
          (d : Code)
          → Tried t (elim d as (λ x. Outcome Code) [
            | err e ↦ give_up e t
            | ok m ↦ ish_query_loader_prop shim k.image t >>= after_query k shim
          ])
      asked (err e) = give_up-Tried e t
      asked (ok m) =
          >>=-Tried t _ (after_query k shim) (query-Steady shim k.image t)
            (λ o u. after_query-Tried k shim o u h)

      found :
          (c : Code)
          → Tried t (elim c as (λ x. Outcome Code) [
            | err e ↦ give_up e t
            | ok n ↦ elim k.request_firmware [
              | err e ↦ give_up e t
              | ok m ↦ ish_query_loader_prop shim k.image t >>= after_query k shim
            ]
          ])
      found (err e) = give_up-Tried e t
      found (ok n) = asked k.request_firmware

      named :
          (b : Bool)
          → Tried s (
              if not b then give_up enomem (record t { flag_retry = true }) else elim k.variant [
                | err e ↦ give_up e t
                | ok n ↦ elim k.request_firmware [
                  | err e ↦ give_up e t
                  | ok m ↦ ish_query_loader_prop shim k.image t >>= after_query k shim
                ]
              ])
      named false = give_up-Tried enomem (record t { flag_retry = true })
      named true = found k.variant

  -- The load has come to an end, with no more resets than the retries that were left; or it goes on for ever,
  -- for the reason `E`.
  abbrev pub Ends : Loader → Outcome Code → Type 0
  Ends s (done c t) = t.resets ≤ s.resets + (3 - s.retry_count)
  Ends s dead_write = Unit
  Ends s endless = E

  load_until-EndsOr :
      (fuel : ℕ) (k : ℕ → Kernel) (shim : ℕ → Shim) (i : ℕ) (s : Loader)
      → ((j : ℕ) → IsSound (k j))
      → 3 - s.retry_count < fuel
      → Ends s (load_until fuel k shim i s)
  unfolding load_until
  load_until-EndsOr zero k shim i s h f = absurd (omega (arith, f))
  load_until-EndsOr (suc fuel) k shim i s h f =
      go (load_fw_from_host (k i) (shim i) s) (load-Tried (k i) (shim i) s (h i))
        (λ t g. load_until-EndsOr fuel k shim (i + 1) t h g)
    where
      step :
          (c : Code) (t : Loader) (b : Bool)
          → ltb s.resets t.resets ≡ b
          → Tried s (done c t)
          → ((t : Loader) → 3 - t.retry_count < fuel → Ends t (load_until fuel k shim (i + 1) t))
          → Ends s (elim b as (λ x. Outcome Code) [
            | false ↦ done c t
            | true ↦ load_until fuel k shim (i + 1) t
          ])
      step c t false e (inl x) rest = omega (arith, x)
      step c t false e (inr (x, y, z)) rest = absurd (ground arith)
      step c t true e (inl x) rest = absurd (ground arith)
      step c t true e (inr (x, y, z)) rest =
          widen (load_until fuel k shim (i + 1) t) (rest t (omega (arith, f, y, z)))
        where
          widen : (o : Outcome Code) → Ends t o → Ends s o
          widen (done d u) w = omega (arith, w, x, y, z)
          widen dead_write w = tt
          widen endless w = w

      go :
          (o : Outcome Code)
          → Tried s o
          → ((t : Loader) → 3 - t.retry_count < fuel → Ends t (load_until fuel k shim (i + 1) t))
          → Ends s (
              o >>= λ c t. elim (ltb s.resets t.resets) [
                | false ↦ done c t
                | true ↦ load_until fuel k shim (i + 1) t
              ])
      go (done c t) h rest = step c t (ltb s.resets t.resets) refl h rest
      go dead_write h rest = tt
      go endless h rest = h

-- The kernel grants a DMA buffer of no bytes at some attempt.
abbrev pub GrantsNothing : (ℕ → Kernel) → Type 0
GrantsNothing k = (j : ℕ) × (p : ℕ) × ((k j).dma_alloc 0 ≡ some p)

-- Whatever the hub answers, fails to answer or answers too late, and whatever fails in the kernel: the
-- loading comes to an end after four attempts at most, and resets the hub no more than three times;
-- with fewer retries left, no more than these; unless the kernel grants an allocation of no bytes as a DMA
-- buffer, which the driver asks for where an image, the limit or what the hub reports is less than a cache
-- line. Images are shorter than 2 GB. An end is also a write to a stack frame that is gone.
pub load_until-Ends :
    (fuel : ℕ) (k : ℕ → Kernel) (shim : ℕ → Shim) (i : ℕ) (s : Loader)
    → ((j : ℕ) → length (k j).image < 2147483648)
    → 3 - s.retry_count < fuel
    → Ends (GrantsNothing k) s (load_until fuel k shim i s)
load_until-Ends fuel k shim i s h f =
    load_until-EndsOr (GrantsNothing k) fuel k shim i s (λ j. (h j, λ p e. (j, p, e))) f
