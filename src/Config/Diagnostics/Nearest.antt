-- ===== src/Config/Diagnostics/Nearest.antt =====
-- bestMatch: the suggestion is a candidate, and no other is nearer.
use easyp_plugin_server.Common.{
  ℕ, ◌+◌, ◌≤◌, ◌≡◌, refl, sym, ap, ◌∙◌, subst, ◌⊎◌, inl, inr, List, [], ◌∷◌, none, some, Text,
  text_eq, arith, All, Bool-cases, Option-cases, ltb, leb,
}
use easyp_plugin_server.Config.Diagnostics.{
  normalise, edit_distance, same_spelling, nearest_from, best_match, max_hint_distance,
}

abbrev pub OneOf : Text → List Text → Type 0
OneOf b [] = ⊥
OneOf b (c ∷ cs) = (b ≡ c) ⊎ OneOf b cs

-- The distance that candidates are ranked by.
abbrev pub away : Text → Text → ℕ
away key candidate = edit_distance (normalise key) (normalise candidate)

record Ranked (key best : Text) (distance : ℕ) (candidates : List Text) (found : Text × ℕ)
    : Type 0 where
  pub no_further : found.1 ≤ distance
  pub nearest : All (λ c. found.1 ≤ away key c) candidates
  pub stands :
      ((found.0 ≡ best) × (found.1 ≡ distance))
      ⊎ (OneOf found.0 candidates × (found.1 ≡ away key found.0))

nearest_from-Ranked :
    (key best : Text) (distance : ℕ) (candidates : List Text)
    → Ranked key best distance candidates (nearest_from key best distance candidates)
unfolding nearest_from
nearest_from-Ranked key best distance [] = record {
  no_further = omega arith;
  nearest = tt;
  stands = inl (refl, refl);
}
nearest_from-Ranked key best distance (c ∷ cs) =
    let closer = nearest_from-Ranked key c (away key c) cs in
    let further = nearest_from-Ranked key best distance cs in
    elim (Bool-cases (ltb (away key c) distance)) [
      | inl e ↦
          rw (e, nearest_from)
            (record {
              no_further = ground (arith, closer.no_further, e);
              nearest = (closer.no_further, closer.nearest);
              stands = elim closer.stands [
                | inl (at, far) ↦ inr (inl at, far ∙ ap (away key) (sym at))
                | inr (among, far) ↦ inr (inr among, far)
              ];
            })
      | inr e ↦
          rw (e, nearest_from)
            (record {
              no_further = further.no_further;
              nearest = (ground (arith, further.no_further, e), further.nearest);
              stands = elim further.stands [
                | inl kept ↦ inl kept
                | inr (among, far) ↦ inr (inr among, far)
              ];
            })
    ]

same_spelling-OneOf :
    (key : Text) (candidates : List Text) (b : Text)
    → same_spelling key candidates ≡ some b
    → OneOf b candidates
unfolding same_spelling
same_spelling-OneOf key [] b h = absurd (cc (h))
same_spelling-OneOf key (c ∷ cs) b h = elim (Bool-cases (text_eq (normalise c) (normalise key))) [
  | inl e ↦
      let first : same_spelling key (c ∷ cs) ≡ some c = rw (e, same_spelling) refl in
      inl (cc (first, h))
  | inr e ↦
      let later : same_spelling key (c ∷ cs) ≡ same_spelling key cs = rw (e, same_spelling) refl in
      inr (same_spelling-OneOf key cs b (sym later ∙ h))
]

All-far :
    (key : Text) (candidates : List Text) (d : ℕ)
    → max_hint_distance + 1 ≤ d
    → All (λ c. d ≤ away key c) candidates
    → All (λ c. max_hint_distance + 1 ≤ away key c) candidates
All-far key [] d low h = tt
All-far key (c ∷ cs) d low h = (omega (arith, low, h.0), All-far key cs d low h.1)

-- What is suggested for a key is one of the candidates, and either it is the key in another
-- spelling, or it is at most two edits away and no candidate is nearer; nothing is suggested only if
-- no candidate is the key in another spelling and all are more than two edits away.
pub best_match-OneOf :
    (key : Text) (candidates : List Text)
    → ((b : Text) × (best_match key candidates ≡ some b)
        × OneOf b candidates
        × ((same_spelling key candidates ≡ some b)
            ⊎ ((away key b ≤ max_hint_distance) × All (λ c. away key b ≤ away key c) candidates)))
      ⊎ ((best_match key candidates ≡ none)
          × (same_spelling key candidates ≡ none)
          × All (λ c. max_hint_distance + 1 ≤ away key c) candidates)
unfolding best_match
best_match-OneOf key candidates = elim (Option-cases (same_spelling key candidates)) [
  | inr (b, e) ↦ inl (b, rw (e, best_match) refl, same_spelling-OneOf key candidates b e, inl e)
  | inl e ↦
      let r = nearest_from-Ranked key [] (max_hint_distance + 1) candidates in
      let found = nearest_from key [] (max_hint_distance + 1) candidates in
      elim (Bool-cases (leb found.1 max_hint_distance)) [
        | inl near ↦ elim r.stands [
          | inl (start, far) ↦ absurd (ground (arith, near, far))
          | inr (among, far) ↦ inl (
            found.0,
            rw (e, near, best_match) refl,
            among,
            inr (
              ground (arith, near, far),
              subst (λ d. All (λ c. d ≤ away key c) candidates) far r.nearest,
            ),
          )
        ]
        | inr far_off ↦ inr (
          rw (e, far_off, best_match) refl,
          e,
          All-far key candidates found.1 (ground (arith, far_off)) r.nearest,
        )
      ]
]
