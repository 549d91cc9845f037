-- ===== src/Audit/Partitions/Retention.antt =====
-- What retention drops, and what it can never drop.
use easyp_plugin_server.Common.{
  ℕ, suc, ◌+◌, ◌<◌, ◌≤◌, none, some, Option-cases, ◌≡◌, refl, sym, ap, ◌∙◌, subst, ◌⊎◌, inl, inr,
  Bool, true, false, not, ◌&&◌, ◌||◌, List, [], ◌∷◌, Text, text_eq, text_eq_iff, text_eq_refl,
  length, keep, All, ltb, ◌==◌, Result, ok, err, member, arith, Bool-cases, List-cases,
  Result-cases,
}
use easyp_plugin_server.Audit.Partitions.{
  Database, MaintainError, database, retention_would_empty_table, parse_partition_month, is_monthly,
  is_expired, monthly_partitions, expired_partitions, drop_partitions, drop_among,
  drop_expired_partitions,
}

-- What Postgres promises of a view `partitions` of its catalogue.
pub record Catalogue (D : Database) : Type 0 where
  pub partitions : D.State → List Text
  pub locks : {s t : D.State} → D.bound_drop_locks s ≡ ok t → partitions t ≡ partitions s
  pub listed :
      {s : D.State} {names : List Text} → D.list_partitions s ≡ ok names → names ≡ partitions s
  pub dropped :
      {s t : D.State} {name : Text}
      → D.drop_partition name s ≡ ok t
      → partitions t ≡ keep (λ n. not (text_eq name n)) (partitions s)

-- The name of a partition of a month before the cutoff.
abbrev pub Expired : ℕ → Text → Type 0
Expired cutoff name = (m : ℕ) × (parse_partition_month name ≡ some m) × (m < cutoff)

-- Any other name: of a month from the cutoff on, or of no month.
abbrev pub Stays : ℕ → Text → Type 0
Stays cutoff name =
    (parse_partition_month name ≡ none)
    ⊎ ((m : ℕ) × (parse_partition_month name ≡ some m) × (cutoff ≤ m))

is_expired-Expired :
    (cutoff : ℕ) (name : Text) → is_expired cutoff name ≡ true → Expired cutoff name
unfolding parse_partition_month
is_expired-Expired cutoff name h = elim (Option-cases (parse_partition_month name)) [
  | inl e ↦ absurd (cc (rw e at h))
  | inr (m, e) ↦ let below : ltb m cutoff ≡ true = rw e at h in (m, e, ground (arith, below))
]

is_expired-Stays :
    (cutoff : ℕ) (name : Text) → not (is_expired cutoff name) ≡ true → Stays cutoff name
unfolding parse_partition_month
is_expired-Stays cutoff name h = elim (Option-cases (parse_partition_month name)) [
  | inl e ↦ inl e
  | inr (m, e) ↦
      let above : not (ltb m cutoff) ≡ true = rw e at h in inr (m, e, ground (arith, above))
]

keep-All :
    (P : Text → Type 0) (p : Text → Bool)
    → ((x : Text) → p x ≡ true → P x)
    → (l : List Text) → All P (keep p l)
keep-All P p h [] = tt
keep-All P p h (x ∷ l) = elim (Bool-cases (p x)) [
  | inl e ↦ rw e (h x e, keep-All P p h l)
  | inr e ↦ rw e (keep-All P p h l)
]

keep-keep : (p q : Text → Bool) (l : List Text) → keep p (keep q l) ≡ keep (λ n. q n && p n) l
keep-keep p q [] = refl
keep-keep p q (x ∷ l) = ground (arith, keep-keep p q l)

keep-true : (l : List Text) → keep (λ n. true) l ≡ l
keep-true [] = refl
keep-true (x ∷ l) = ap (λ r. x ∷ r) (keep-true l)

-- Two tests that agree on the members of `m` keep the same of any part of it.
keep_agree :
    (p q : Text → Bool) (m l : List Text)
    → ((x : Text) → member x m ≡ true → p x ≡ q x)
    → All (λ x. member x m ≡ true) l
    → keep p l ≡ keep q l
keep_agree p q m [] h a = refl
keep_agree p q m (x ∷ l) h a = ground (arith, h x a.0, keep_agree p q m l h a.1)

All-member_more :
    (y : Text) (m l : List Text)
    → All (λ x. member x m ≡ true) l
    → All (λ x. member x (y ∷ m) ≡ true) l
unfolding member
All-member_more y m [] a = tt
All-member_more y m (x ∷ l) a = (ground (arith, a.0), All-member_more y m l a.1)

All-member : (l : List Text) → All (λ x. member x l ≡ true) l
unfolding member
All-member [] = tt
All-member (x ∷ l) = (ground (arith, text_eq_refl x), All-member_more x l l (All-member l))

member-keep :
    (p : Text → Bool) (x : Text) (l : List Text) → member x (keep p l) ≡ (member x l && p x)
unfolding member
member-keep p x [] = refl
member-keep p x (y ∷ l) = ground (arith, text_eq_iff y x, member-keep p x l)

not-or : (a b : Bool) → (not a && not b) ≡ not (a || b)
not-or true b = refl
not-or false b = refl

keep_same : (p q : Text → Bool) (l : List Text) → ((x : Text) → p x ≡ q x) → keep p l ≡ keep q l
keep_same p q [] h = refl
keep_same p q (x ∷ l) h = ground (arith, h x, keep_same p q l h)

-- Keeping what is not among the members that pass a test is keeping what fails it.
keep_unlisted :
    (p : Text → Bool) (l : List Text)
    → keep (λ n. not (member n (keep p l))) l ≡ keep (λ n. not (p n)) l
keep_unlisted p l =
    keep_agree (λ n. not (member n (keep p l))) (λ n. not (p n)) l l
      (λ x m. ap not (member-keep p x l ∙ ap (λ b. b && p x) m)) (All-member l)

length_monthly :
    (cutoff : ℕ) (l : List Text)
    → length (keep is_monthly l)
      ≡ length (keep (is_expired cutoff) l)
        + length (keep is_monthly (keep (λ n. not (is_expired cutoff n)) l))
length_monthly cutoff [] = refl
length_monthly cutoff (x ∷ l) = ground (arith, length_monthly cutoff l)

-- As many expired partitions as monthly ones are all of them.
monthly-Expired :
    (cutoff : ℕ) (l : List Text)
    → length (keep (is_expired cutoff) l) ≡ length (keep is_monthly l)
    → All (Expired cutoff) (keep is_monthly l)
unfolding parse_partition_month
monthly-Expired cutoff [] h = tt
monthly-Expired cutoff (x ∷ l) h = elim (Option-cases (parse_partition_month x)) [
  | inl e ↦ rw e (monthly-Expired cutoff l (rw e at h))
  | inr (m, e) ↦ elim (Bool-cases (ltb m cutoff)) [
    | inl b ↦
        let same : suc (length (keep (is_expired cutoff) l)) ≡ suc (length (keep is_monthly l)) =
          rw (e, b) at h in
        rw e ((m, e, ground (arith, b)), monthly-Expired cutoff l (omega (arith, same)))
    | inr b ↦
        let more : length (keep (is_expired cutoff) l) ≡ suc (length (keep is_monthly l)) =
          rw (e, b) at h in
        absurd (omega (arith, more, length_monthly cutoff l))
  ]
]

-- Where the guard lets a pass through, it has nothing to drop or it leaves a monthly partition.
left_over :
    (cutoff : ℕ) (l : List Text)
    → (ltb 0 (length (keep (is_expired cutoff) l))
        && length (keep (is_expired cutoff) l) == length (keep is_monthly l))
      ≡ false
    → (keep (is_expired cutoff) l ≡ [])
      ⊎ (0 < length (keep is_monthly (keep (λ n. not (is_expired cutoff n)) l)))
left_over cutoff l h = elim (List-cases (keep (is_expired cutoff) l)) [
  | inl e ↦ inl e
  | inr (x, r, e) ↦ inr (ground (arith, ap length e, length_monthly cutoff l))
]

module _ {D : Database} (C : Catalogue D) where
  open C use {partitions}

  drop_partitions_lem :
      (names : List Text) (s t : D.State)
      → drop_partitions D names s ≡ ok t
      → partitions t ≡ keep (λ n. not (member n names)) (partitions s)
  unfolding drop_partitions member
  drop_partitions_lem [] s t h =
      let e : s ≡ t = cc (h) in ap partitions (sym e) ∙ sym (keep-true (partitions s))
  drop_partitions_lem (name ∷ names) s t h = elim (Result-cases (D.drop_partition name s)) [
    | inr (e, q) ↦ absurd (cc (rw (q, drop_partitions) at h))
    | inl (s', q) ↦
        drop_partitions_lem names s' t (rw (q, drop_partitions) at h)
        ∙ ap (keep (λ n. not (member n names))) (C.dropped q)
        ∙ keep-keep (λ n. not (member n names)) (λ n. not (text_eq name n)) (partitions s)
        ∙ keep_same _ _ (partitions s) (λ n. not-or (text_eq name n) (member n names))
  ]

  drop_partitions-fails :
      (P : Text → Type 0) (names : List Text) (s : D.State) (f : D.Failure)
      → All P names
      → drop_partitions D names s ≡ err f
      → (name : Text) × (t : D.State) × P name × (D.drop_partition name t ≡ err f)
  unfolding drop_partitions
  drop_partitions-fails P [] s f a h = absurd (cc h)
  drop_partitions-fails P (name ∷ names) s f a h = elim (Result-cases (D.drop_partition name s)) [
    | inr (e, q) ↦
        let answer : err e ≡ err f = rw (q, drop_partitions) at h in (name, s, a.0, q ∙ answer)
    | inl (s', q) ↦ drop_partitions-fails P names s' f a.1 (rw (q, drop_partitions) at h)
  ]

  -- Why a pass fails: an answer of the database, on the way or at the drop of an expired partition,
  -- or all monthly partitions are expired.
  pub data Cause (cutoff : ℕ) (s : D.State) : MaintainError D.Failure → Type 0 where
    no_lock : (f : D.Failure) → D.acquire_lock s ≡ err f → Cause cutoff s (database f)
    no_bound : (f : D.Failure) → D.bound_drop_locks s ≡ err f → Cause cutoff s (database f)
    no_list :
        (f : D.Failure) (t : D.State)
        → D.bound_drop_locks s ≡ ok t
        → D.list_partitions t ≡ err f
        → Cause cutoff s (database f)
    no_drop :
        (f : D.Failure) (name : Text) (t : D.State)
        → Expired cutoff name
        → D.drop_partition name t ≡ err f
        → Cause cutoff s (database f)
    would_empty :
        All (Expired cutoff) (keep is_monthly (partitions s))
        → Cause cutoff s retention_would_empty_table

  drop_among-Cause :
      (cutoff : ℕ) (names : List Text) (s t : D.State) (e : MaintainError D.Failure)
      → names ≡ partitions s
      → drop_among D names cutoff t ≡ err e
      → Cause cutoff s e
  unfolding drop_among expired_partitions monthly_partitions
  drop_among-Cause cutoff names s t e same h =
      let expired = expired_partitions names cutoff in
      elim (Bool-cases
        (ltb 0 (length expired) && length expired == length (monthly_partitions names))) [
          | inl full ↦
              let answer : err retention_would_empty_table ≡ err e = rw (full, drop_among) at h in
              let why : retention_would_empty_table ≡ e = cc answer in
              let all = monthly-Expired cutoff names (ground (arith, full)) in
              subst (Cause cutoff s) why
                (would_empty (subst (λ l. All (Expired cutoff) (keep is_monthly l)) same all))
          | inr safe ↦ elim (Result-cases (drop_partitions D expired t)) [
            | inl (t', q) ↦ absurd (cc (rw (safe, q, drop_among) at h))
            | inr (f, q) ↦
                let answer : err (database f) ≡ err e = rw (safe, q, drop_among) at h in
                let why : database f ≡ e = cc answer in
                let (name, u, old, failed) =
                  drop_partitions-fails (Expired cutoff) expired t f
                    (keep-All (Expired cutoff) (is_expired cutoff)
                      (λ n. is_expired-Expired cutoff n) names)
                    q in
                subst (Cause cutoff s) why (no_drop f name u old failed)
          ]
        ]

  -- What a pass that dropped something leaves.
  pub record Dropped (cutoff : ℕ) (s : D.State) (dropped : List Text) (t : D.State) : Type 0 where
    pub named : dropped ≡ keep (is_expired cutoff) (partitions s)
    pub rest : partitions t ≡ keep (λ n. not (is_expired cutoff n)) (partitions s)
    pub named_old : All (Expired cutoff) dropped
    pub rest_new : All (Stays cutoff) (partitions t)
    pub some_left : (dropped ≡ []) ⊎ (0 < length (keep is_monthly (partitions t)))

  drop_among-Dropped :
      (cutoff : ℕ) (names dropped : List Text) (s t : D.State)
      → names ≡ partitions s
      → drop_among D names cutoff s ≡ ok (dropped, t)
      → Dropped cutoff s dropped t
  unfolding drop_among expired_partitions monthly_partitions
  drop_among-Dropped cutoff names dropped s t e h =
      let expired = expired_partitions names cutoff in
      elim (Bool-cases
        (ltb 0 (length expired) && length expired == length (monthly_partitions names))) [
          | inl full ↦ absurd (cc (rw (full, drop_among) at h))
          | inr safe ↦ elim (Result-cases (drop_partitions D expired s)) [
            | inr (f, q) ↦ absurd (cc (rw (safe, q, drop_among) at h))
            | inl (t', q) ↦
                let answer : ok (expired, t') ≡ ok (dropped, t) = rw (safe, q, drop_among) at h in
                let same_names : expired ≡ dropped = cc (answer) in
                let same_state : t' ≡ t = cc (answer) in
                let rest =
                  ap partitions (sym same_state)
                  ∙ drop_partitions_lem expired s t' q
                  ∙ subst
                      (λ l.
                        keep (λ n. not (member n (keep (is_expired cutoff) l))) (partitions s)
                        ≡ keep (λ n. not (is_expired cutoff n)) (partitions s))
                      (sym e) (keep_unlisted (is_expired cutoff) (partitions s)) in
                record {
                  named = sym same_names ∙ ap (keep (is_expired cutoff)) e;
                  rest = rest;
                  named_old = subst (All (Expired cutoff)) same_names (
                      keep-All (Expired cutoff) (is_expired cutoff)
                        (λ n. is_expired-Expired cutoff n) names);
                  rest_new = subst (All (Stays cutoff)) (sym rest) (
                      keep-All (Stays cutoff) (λ n. not (is_expired cutoff n))
                        (λ n. is_expired-Stays cutoff n) (partitions s));
                  some_left =
                      subst (λ m. (dropped ≡ []) ⊎ (0 < length (keep is_monthly m))) (sym rest)
                        (subst
                          (λ d.
                            (d ≡ [])
                            ⊎ (0
                                < length (
                                    keep is_monthly
                                      (keep (λ n. not (is_expired cutoff n)) (partitions s)))))
                          (sym (sym same_names ∙ ap (keep (is_expired cutoff)) e))
                          (left_over cutoff (partitions s) (
                            subst
                              (λ l.
                                (ltb 0 (length (keep (is_expired cutoff) l))
                                  && length (keep (is_expired cutoff) l)
                                    == length (keep is_monthly l))
                                ≡ false)
                              e safe)));
                }
          ]
        ]

  -- The ways a pass of retention can end.
  pub data Ended (cutoff : ℕ) (s : D.State)
      : Result (MaintainError D.Failure) (List Text) × D.State → Type 0 where
    undone : (e : MaintainError D.Failure) → Cause cutoff s e → Ended cutoff s (err e, s)
    left_alone : D.acquire_lock s ≡ ok false → Ended cutoff s (ok [], s)
    dropped_some :
        (dropped : List Text) (t : D.State)
        → Dropped cutoff s dropped t
        → Ended cutoff s (ok dropped, t)

  -- A pass of retention fails and leaves the database as it was, because of an answer of the database
  -- or since all monthly partitions are older than the cutoff; or finds the lock taken and does
  -- nothing; or drops exactly the partitions whose month is before the cutoff, keeps all others in
  -- their order, which are of later months or of no month, and leaves a monthly partition unless
  -- it dropped nothing. The catalogue answers as its laws say.
  pub drop_expired_partitions_lem :
      (cutoff : ℕ) (s : D.State) → Ended cutoff s (drop_expired_partitions D cutoff s)
  unfolding drop_expired_partitions
  drop_expired_partitions_lem cutoff s = elim (Result-cases (D.acquire_lock s)) [
    | inr (e, q) ↦ rw (q, drop_expired_partitions) (undone _ (no_lock e q))
    | inl (false, q) ↦ rw (q, drop_expired_partitions) (left_alone q)
    | inl (true, q) ↦ elim (Result-cases (D.bound_drop_locks s)) [
      | inr (e, b) ↦ rw (q, b, drop_expired_partitions) (undone _ (no_bound e b))
      | inl (s', b) ↦ elim (Result-cases (D.list_partitions s')) [
        | inr (e, l) ↦ rw (q, b, l, drop_expired_partitions) (undone _ (no_list e s' b l))
        | inl (names, l) ↦ elim (Result-cases (drop_among D names cutoff s')) [
          | inr (e, d) ↦
              rw (q, b, l, d, drop_expired_partitions)
                (undone _ (drop_among-Cause cutoff names s s' e (C.listed l ∙ C.locks b) d))
          | inl ((dropped, t), d) ↦
              let D' = drop_among-Dropped cutoff names dropped s' t (C.listed l) d in
              rw (q, b, l, d, drop_expired_partitions)
                (dropped_some dropped t (record {
                  named = D'.named ∙ ap (keep (is_expired cutoff)) (C.locks b);
                  rest = D'.rest ∙ ap (keep (λ n. not (is_expired cutoff n))) (C.locks b);
                  named_old = D'.named_old;
                  rest_new = D'.rest_new;
                  some_left = D'.some_left;
                }))
        ]
      ]
    ]
  ]
