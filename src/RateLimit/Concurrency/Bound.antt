-- ===== src/RateLimit/Concurrency/Bound.antt =====
-- The limit holds after any interleaving of admissions and completions.
use easyp_plugin_server.Common.{
  ℕ, suc, ◌+◌, ◌-◌, ◌≤◌, ◌≡◌, ◌≢◌, ◌↔◌, ◌∙◌, ap, subst, refl, sym, true, false, List, [], ◌∷◌, ◌++◌,
  Option, none, some, Text, text_eq, text_eq_iff, arith, if◌then◌else◌, ℤ, pos, magnitude, lookup,
  insert, delete, lookup-insert, lookup-delete,
}
use easyp_plugin_server.Core.Domain.{Feature, FeatureGate}
use easyp_plugin_server.Core.Service.{allows}
use easyp_plugin_server.RateLimit.Concurrency.{
  ConcurrencyLimiter, Slot, uncounted, held, new_concurrency_limiter, flying, release, admit,
  finish,
}

-- The limiter and the slots of the requests that are running.
pub record System : Type 0 where
  pub limiter : ConcurrencyLimiter
  pub running : List Slot

-- A request arrives and is admitted or refused, or any running request finishes.
pub data Step : System → System → Type 0 where
  admitted :
      (s : System) (key : Text) (slot : Slot)
      → (admit key s.limiter).0 ≡ some slot
      → Step s (record { limiter = (admit key s.limiter).1; running = slot ∷ s.running })
  refused :
      (s : System) (key : Text)
      → (admit key s.limiter).0 ≡ none
      → Step s (record { limiter = (admit key s.limiter).1; running = s.running })
  finished :
      (s : System) (before : List Slot) (slot : Slot) (after : List Slot)
      → s.running ≡ before ++ slot ∷ after
      → Step s (record { limiter = finish slot s.limiter; running = before ++ after })

pub data Reach (limit : ℤ) (gate : Option FeatureGate) : System → Type 0 where
  start : Reach limit gate (record { limiter = new_concurrency_limiter limit gate; running = [] })
  next : {s t : System} → Reach limit gate s → Step s t → Reach limit gate t

abbrev pub weight : Text → Slot → ℕ
weight key uncounted = 0
weight key (held k) = if text_eq k key then 1 else 0

-- How many running requests of this client hold a slot.
abbrev pub count : Text → List Slot → ℕ
count key [] = 0
count key (slot ∷ slots) = weight key slot + count key slots

count-append : (key : Text) (xs ys : List Slot) → count key (xs ++ ys) ≡ count key xs + count key ys
count-append key [] ys = omega arith
count-append key (x ∷ xs) ys = omega (arith, count-append key xs ys)

flying-insert :
    (k j : Text) (v : ℕ) (m : List (Text × ℕ))
    → flying j (insert k v m) ≡ (if text_eq k j then v else flying j m)
unfolding flying
flying-insert k j v m = ground (arith, lookup-insert k j v m)

flying-delete :
    (k j : Text) (m : List (Text × ℕ))
    → flying j (delete k m) ≡ (if text_eq k j then 0 else flying j m)
unfolding flying
flying-delete k j m = ground (arith, lookup-delete k j m)

-- What the map says of one client.
pub record Inv (key : Text) (limit : ℤ) (c : ConcurrencyLimiter) (running : List Slot)
    : Type 0 where
  pub same_limit : c.limit ≡ limit
  pub exact : flying key c.in_flight ≡ count key running
  pub positive : lookup key c.in_flight ≢ some 0
  pub bounded : count key running ≤ magnitude limit

module _ (j : Text) (limit : ℤ) where
  admit-Inv :
      (key : Text) (slot : Slot) (c : ConcurrencyLimiter) (running : List Slot)
      → (admit key c).0 ≡ some slot
      → Inv j limit c running
      → Inv j limit (admit key c).1 (slot ∷ running)
  unfolding admit
  admit-Inv key slot c running h v = ground (
    arith,
    flying-insert key j (suc (flying key c.in_flight)) c.in_flight,
    lookup-insert key j (suc (flying key c.in_flight)) c.in_flight,
    text_eq_iff key j,
  )

  reject-Inv :
      (key : Text) (c : ConcurrencyLimiter) (running : List Slot)
      → (admit key c).0 ≡ none
      → Inv j limit c running
      → Inv j limit (admit key c).1 running
  unfolding admit
  reject-Inv key c running h v = ground arith

  release-Inv :
      (key : Text) (c : ConcurrencyLimiter) (before after : List Slot)
      → Inv j limit c (before ++ held key ∷ after)
      → Inv j limit (release key c) (before ++ after)
  unfolding release
  release-Inv key c before after v = ground (
    arith,
    flying-insert key j (flying key c.in_flight - 1) c.in_flight,
    lookup-insert key j (flying key c.in_flight - 1) c.in_flight,
    flying-delete key j (insert key (flying key c.in_flight - 1) c.in_flight),
    lookup-delete key j (insert key (flying key c.in_flight - 1) c.in_flight),
    text_eq_iff key j,
    count-append j before (held key ∷ after),
    count-append j before after,
  )

  Step-Inv :
      {s t : System} → Step s t → Inv j limit s.limiter s.running → Inv j limit t.limiter t.running
  unfolding finish
  Step-Inv (admitted s key slot h) v = admit-Inv key slot s.limiter s.running h v
  Step-Inv (refused s key h) v = reject-Inv key s.limiter s.running h v
  Step-Inv (finished s before (held key) after e) v =
      release-Inv key s.limiter before after (subst (Inv j limit s.limiter) e v)
  Step-Inv (finished s before uncounted after e) v = record {
    same_limit = v.same_limit;
    exact = omega (
      arith,
      v.exact,
      ap (count j) e,
      count-append j before (uncounted ∷ after),
      count-append j before after,
    );
    positive = v.positive;
    bounded = omega (
      arith,
      v.bounded,
      ap (count j) e,
      count-append j before (uncounted ∷ after),
      count-append j before after,
    );
  }

  Reach-Inv :
      {gate : Option FeatureGate} {s : System}
      → Reach limit gate s
      → Inv j limit s.limiter s.running
  unfolding new_concurrency_limiter flying lookup
  Reach-Inv start = record {
    same_limit = refl;
    exact = refl;
    positive = λ e. cc;
    bounded = omega arith;
  }
  Reach-Inv (next r st) = Step-Inv st (Reach-Inv r)

forgotten :
    (key : Text) (m : List (Text × ℕ))
    → lookup key m ≢ some 0
    → flying key m ≡ 0
    → lookup key m ≡ none
unfolding flying
forgotten key m p h = ground arith

absent-flying : (key : Text) (m : List (Text × ℕ)) → lookup key m ≡ none → flying key m ≡ 0
unfolding flying
absent-flying key m h = ground arith

-- After any interleaving of admissions, refusals and completions, the map counts exactly the
-- requests of a client that hold a slot, they are never more than the limit, and a client is
-- missing from the map exactly when it has none.
pub in_flight_exact :
    {limit : ℤ} {gate : Option FeatureGate} {s : System}
    → Reach limit gate s
    → (key : Text)
    → (flying key s.limiter.in_flight ≡ count key s.running)
      × (count key s.running ≤ magnitude limit)
      × ((count key s.running ≡ 0) ↔ (lookup key s.limiter.in_flight ≡ none))
in_flight_exact {limit} {gate} {s} r key =
    let v = Reach-Inv key limit r in
    (
      v.exact,
      v.bounded,
      (
        (λ h. forgotten key s.limiter.in_flight v.positive (v.exact ∙ h)),
        (λ h. sym v.exact ∙ absent-flying key s.limiter.in_flight h),
      ),
    )

-- Whoever is identified, while the feature is on and the limit is positive, is refused exactly
-- when all their slots are taken.
pub refused_at_limit :
    {n : ℕ} {gate : Option FeatureGate} {s : System}
    → Reach (pos (suc n)) gate s
    → (key : Text) → allows s.limiter.gate Feature.rate_limiting ≡ true
    → text_eq key [] ≡ false
    → ((admit key s.limiter).0 ≡ none) ↔ (count key s.running ≡ suc n)
unfolding admit
refused_at_limit {n} {gate} {s} r key on known =
    let v = Reach-Inv key (pos (suc n)) r in ground (arith, v.same_limit, v.exact, v.bounded)
