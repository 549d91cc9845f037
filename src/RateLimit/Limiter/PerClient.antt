-- ===== src/RateLimit/Limiter/PerClient.antt =====
-- A client's answers are those of its own bucket.
use easyp_plugin_server.Common.{
  ℕ, ◌≡◌, refl, sym, ap, ◌∙◌, Bool, true, false, List, [], ◌∷◌, Option, none, some, Text, text_eq,
  text_eq→eq, subst, text_eq_refl, Bool-cases, Option-cases, inl, inr, if◌then◌else◌, lookup,
  lookup-insert,
}
use easyp_plugin_server.Core.Domain.{Feature, FeatureGate}
use easyp_plugin_server.Core.Service.{allows}
use easyp_plugin_server.RateLimit.Limiter.{
  TokenBucket, ClientBucket, RateLimiter, new_rate_limiter, load_or_store, take_token, limit,
}

module _ (B : TokenBucket) where
  -- What one bucket answers to requests at these times.
  abbrev pub bucket_answers : List ℕ → B.State → List Bool
  bucket_answers [] b = []
  bucket_answers (now ∷ times) b =
      let (answer, b') = B.allow now b in answer ∷ bucket_answers times b'

  -- The times of a client's requests.
  abbrev pub times_of : Text → List (ℕ × Text) → List ℕ
  times_of key [] = []
  times_of key ((now, k) ∷ requests) =
      if text_eq k key then now ∷ times_of key requests else times_of key requests

  -- What the limiter answers to a client's requests, out of all requests in order.
  abbrev pub answers_to : Text → List (ℕ × Text) → RateLimiter B → List Bool
  answers_to key [] rl = []
  answers_to key ((now, k) ∷ requests) rl =
      let rest = answers_to key requests (limit B now k rl).1 in
      if text_eq k key then (limit B now k rl).0 ∷ rest else rest

  -- The state of a client's bucket; a client that has none gets a fresh one.
  abbrev pub state_of : Option (ClientBucket B) → B.State
  state_of none = B.fresh
  state_of (some b) = b.limiter

  abbrev pub bucket_of : Text → RateLimiter B → B.State
  bucket_of key rl = state_of (lookup key rl.buckets)

  load_or_store-own :
      (now : ℕ) (k : Text) (rl : RateLimiter B)
      → (load_or_store B now k rl).0.limiter ≡ bucket_of k rl
  unfolding load_or_store
  load_or_store-own now k rl = elim (Option-cases (lookup k rl.buckets)) [
    | inl h ↦ rw (h, load_or_store) refl
    | inr (b, h) ↦ rw (h, load_or_store) refl
  ]

  load_or_store-kept :
      (now : ℕ) (k key : Text) (rl : RateLimiter B)
      → text_eq k key ≡ false
      → (lookup key (load_or_store B now k rl).1.buckets ≡ lookup key rl.buckets)
        × ((load_or_store B now k rl).1.gate ≡ rl.gate)
  unfolding load_or_store
  load_or_store-kept now k key rl ne = elim (Option-cases (lookup k rl.buckets)) [
    | inl h ↦ (
      rw (h, load_or_store) (rw (lookup-insert k key _ rl.buckets, ne) refl),
      rw (h, load_or_store) refl,
    )
    | inr (b, h) ↦ (rw (h, load_or_store) refl, rw (h, load_or_store) refl)
  ]

  -- What the rest of Limit does to the answer and to the buckets.
  take_token-lookup :
      (now : ℕ) (k key : Text) (b : ClientBucket B) (rl : RateLimiter B)
      → lookup key (take_token B now k (b, rl)).1.buckets ≡ (
          if text_eq k key
          then some (record { limiter = (B.allow now b.limiter).1; last_seen = now })
          else lookup key rl.buckets)
  unfolding take_token
  take_token-lookup now k key b rl = elim (Bool-cases (B.allow now b.limiter).0) [
    | inl h ↦ rw (h, take_token) (lookup-insert k key _ rl.buckets)
    | inr h ↦ rw (h, take_token) (lookup-insert k key _ rl.buckets)
  ]

  take_token-answer :
      (now : ℕ) (k : Text) (b : ClientBucket B) (rl : RateLimiter B)
      → ((take_token B now k (b, rl)).0 ≡ (B.allow now b.limiter).0)
        × ((take_token B now k (b, rl)).1.gate ≡ rl.gate)
  unfolding take_token
  take_token-answer now k b rl = elim (Bool-cases (B.allow now b.limiter).0) [
    | inl h ↦ (rw (h, take_token) refl, rw (h, take_token) refl)
    | inr h ↦ (rw (h, take_token) refl, rw (h, take_token) refl)
  ]

  limit-take :
      (now : ℕ) (k : Text) (rl : RateLimiter B)
      → allows rl.gate Feature.rate_limiting ≡ true
      → text_eq k [] ≡ false
      → limit B now k rl ≡ take_token B now k (load_or_store B now k rl)
  unfolding limit
  limit-take now k rl on known = rw (on, known, limit) refl

  -- A request of the client is answered by its bucket, which moves on; the gate stays.
  limit-own :
      (now : ℕ) (k : Text) (rl : RateLimiter B)
      → allows rl.gate Feature.rate_limiting ≡ true
      → text_eq k [] ≡ false
      → ((limit B now k rl).0 ≡ (B.allow now (bucket_of k rl)).0)
        × (bucket_of k (limit B now k rl).1 ≡ (B.allow now (bucket_of k rl)).1)
  limit-own now k rl on known =
      let (b, rl') = load_or_store B now k rl in
      let same = load_or_store-own now k rl in
      let taken = limit-take now k rl on known in
      (
        ap (λ t. t.0) taken ∙ (take_token-answer now k b rl').0 ∙ ap (λ s. (B.allow now s).0) same,
        ap (λ t. bucket_of k t.1) taken
            ∙ ap state_of (take_token-lookup now k k b rl')
            ∙ ap
                (λ v. state_of (
                  if v
                  then some (record { limiter = (B.allow now b.limiter).1; last_seen = now })
                  else lookup k rl'.buckets))
                (text_eq_refl k)
            ∙ ap (λ s. (B.allow now s).1) same,
      )

  limit-unlimited :
      (now : ℕ) (k : Text) (rl : RateLimiter B)
      → text_eq k [] ≡ true
      → limit B now k rl ≡ (true, rl)
  unfolding limit
  limit-unlimited now k rl h = elim (Bool-cases (allows rl.gate Feature.rate_limiting)) [
    | inl on ↦ rw (on, h, limit) refl
    | inr off ↦ rw (off, limit) refl
  ]

  limit-other :
      (now : ℕ) (k key : Text) (rl : RateLimiter B)
      → allows rl.gate Feature.rate_limiting ≡ true
      → text_eq k key ≡ false
      → (bucket_of key (limit B now k rl).1 ≡ bucket_of key rl)
        × ((limit B now k rl).1.gate ≡ rl.gate)
  limit-other now k key rl on ne = elim (Bool-cases (text_eq k [])) [
    | inl h ↦
        let same = limit-unlimited now k rl h in
        (ap (λ t. bucket_of key t.1) same, ap (λ t. t.1.gate) same)
    | inr known ↦
        let (b, rl') = load_or_store B now k rl in
        let taken = limit-take now k rl on known in
        let (kept, gate) = load_or_store-kept now k key rl ne in
        (
          ap (λ t. bucket_of key t.1) taken
              ∙ ap state_of (
                  take_token-lookup now k key b rl'
                  ∙ ap
                      (λ v.
                        if v
                        then some (record { limiter = (B.allow now b.limiter).1; last_seen = now })
                        else lookup key rl'.buckets)
                      ne
                  ∙ kept),
          ap (λ t. t.1.gate) taken ∙ (take_token-answer now k b rl').1 ∙ gate,
        )
  ]

  load_or_store-gate :
      (now : ℕ) (k : Text) (rl : RateLimiter B) → (load_or_store B now k rl).1.gate ≡ rl.gate
  unfolding load_or_store
  load_or_store-gate now k rl = elim (Option-cases (lookup k rl.buckets)) [
    | inl h ↦ rw (h, load_or_store) refl
    | inr (b, h) ↦ rw (h, load_or_store) refl
  ]

  limit-gate :
      (now : ℕ) (k : Text) (rl : RateLimiter B)
      → allows rl.gate Feature.rate_limiting ≡ true
      → (limit B now k rl).1.gate ≡ rl.gate
  limit-gate now k rl on = elim (Bool-cases (text_eq k [])) [
    | inl h ↦ ap (λ t. t.1.gate) (limit-unlimited now k rl h)
    | inr known ↦
        let (b, rl') = load_or_store B now k rl in
        ap (λ t. t.1.gate) (limit-take now k rl on known)
        ∙ (take_token-answer now k b rl').1
        ∙ load_or_store-gate now k rl
  ]

  per_client_from :
      (key : Text) (requests : List (ℕ × Text)) (rl : RateLimiter B)
      → text_eq key [] ≡ false
      → allows rl.gate Feature.rate_limiting ≡ true
      → answers_to key requests rl ≡ bucket_answers (times_of key requests) (bucket_of key rl)
  per_client_from key [] rl known on = refl
  per_client_from key ((now, k) ∷ requests) rl known on =
      let still = ap (λ g. allows g Feature.rate_limiting) (limit-gate now k rl on) ∙ on in
      let ih = per_client_from key requests (limit B now k rl).1 known still in
      let own = limit-own now key rl on known in
      let own_still = ap (λ g. allows g Feature.rate_limiting) (limit-gate now key rl on) ∙ on in
      let own_rest =
        per_client_from key requests (limit B now key rl).1 known own_still
        ∙ ap (bucket_answers (times_of key requests)) own.1 in
      let own_request =
        ap (λ a. a ∷ answers_to key requests (limit B now key rl).1) own.0
        ∙ ap (λ l. (B.allow now (bucket_of key rl)).0 ∷ l) own_rest in
      elim (Bool-cases (text_eq k key)) [
        | inl e ↦ rw (e) (
            subst
              (λ j.
                (limit B now j rl).0 ∷ answers_to key requests (limit B now j rl).1
                ≡ (B.allow now (bucket_of key rl)).0
                  ∷ bucket_answers (times_of key requests) (B.allow now (bucket_of key rl)).1)
              (sym (text_eq→eq k key e)) own_request)
        | inr e ↦
            rw (e)
              (ih ∙ ap (bucket_answers (times_of key requests)) (limit-other now k key rl on e).0)
      ]

-- Among any requests of any clients, with the feature on and no clean-up in between, the requests
-- of one identified client are allowed and refused exactly as one fresh token bucket would.
pub per_client :
    (B : TokenBucket) (cleanup_interval : ℕ) (gate : Option FeatureGate) (key : Text)
    (requests : List (ℕ × Text))
    → text_eq key [] ≡ false
    → allows gate Feature.rate_limiting ≡ true
    → answers_to B key requests (new_rate_limiter B cleanup_interval gate)
      ≡ bucket_answers B (times_of B key requests) B.fresh
unfolding new_rate_limiter lookup
per_client B cleanup_interval gate key requests known on =
    per_client_from B key requests (new_rate_limiter B cleanup_interval gate) known on
