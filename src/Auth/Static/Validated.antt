-- ===== src/Auth/Static/Validated.antt =====
-- What Validate's acceptance means for the authenticator that is built from the same list.
use easyp_plugin_server.Common.{
  ◌≡◌, refl, ap, ◌≢◌, true, false, inl, inr, List, [], ◌∷◌, map, arith, some, Text, text_eq,
  text_eq_iff, ok, Option-cases, All,
}
use easyp_plugin_server.Auth.Tokens.{WriteToken, validate, validate_from, decode_hex, seen_before}
use easyp_plugin_server.Auth.Static.{new_static_token_authenticator}

-- Every two of the texts differ.
abbrev pub Distinct : List Text → Type 0
Distinct [] = Unit
Distinct (x ∷ xs) = All (λ y. x ≢ y) xs × Distinct xs

-- What Validate has seen of one entry.
record Accepted (seen : List Text) (token : WriteToken) (tokens : List WriteToken) : Type 0 where
  digest : Text
  decodes : decode_hex token.sha256 ≡ some digest
  named : text_eq token.name [] ≡ false
  unseen : seen_before token.name seen ≡ false
  others : validate_from (token.name ∷ seen) tokens ≡ ok tt

validate_from-Accepted :
    (seen : List Text) (token : WriteToken) (tokens : List WriteToken)
    → validate_from seen (token ∷ tokens) ≡ ok tt
    → Accepted seen token tokens
unfolding validate_from
validate_from-Accepted seen token tokens h = elim (Option-cases (decode_hex token.sha256)) [
  | inl e ↦ absurd (ground arith)
  | inr (d, e) ↦ record {
    digest = d;
    decodes = e;
    named = ground arith;
    unseen = ground arith;
    others = ground arith;
  }
]

validate_from-unseen :
    (name : Text) (seen : List Text) (tokens : List WriteToken)
    → seen_before name seen ≡ true
    → validate_from seen tokens ≡ ok tt
    → All (λ other. name ≢ other) (map (λ t. t.name) tokens)
unfolding seen_before
validate_from-unseen name seen [] s h = tt
validate_from-unseen name seen (t ∷ tokens) s h =
    let a = validate_from-Accepted seen t tokens h in
    (
      (λ q. cc (s, a.unseen, q)),
      validate_from-unseen name (t.name ∷ seen) tokens (ground (arith, s)) a.others,
    )

validate_from-Distinct :
    (seen : List Text) (tokens : List WriteToken)
    → validate_from seen tokens ≡ ok tt
    → Distinct (map (λ t. t.name) tokens)
unfolding seen_before
validate_from-Distinct seen [] h = tt
validate_from-Distinct seen (t ∷ tokens) h =
    let a = validate_from-Accepted seen t tokens h in
    (
      validate_from-unseen t.name (t.name ∷ seen) tokens
          (ground (arith, (text_eq_iff t.name t.name).1 refl)) a.others,
      validate_from-Distinct (t.name ∷ seen) tokens a.others,
    )

validate_from-names :
    (seen : List Text) (tokens : List WriteToken)
    → validate_from seen tokens ≡ ok tt
    → (map (λ t. t.name) (new_static_token_authenticator tokens) ≡ map (λ t. t.name) tokens)
      × All (λ t. t.name ≢ []) (new_static_token_authenticator tokens)
unfolding new_static_token_authenticator
validate_from-names seen [] h = (refl, tt)
validate_from-names seen (t ∷ tokens) h =
    let a = validate_from-Accepted seen t tokens h in
    let ih = validate_from-names (t.name ∷ seen) tokens a.others in
    rw (a.decodes, new_static_token_authenticator)
      (ap (λ l. t.name ∷ l) ih.0, ((λ q. cc (a.named, (text_eq_iff t.name []).1 q)), ih.1))

-- A list that Validate accepts loses no entry on the way into the authenticator, which skips
-- digests that do not decode, and its names are not empty and all different.
pub validated_tokens :
    (tokens : List WriteToken)
    → validate tokens ≡ ok tt
    → (map (λ t. t.name) (new_static_token_authenticator tokens) ≡ map (λ t. t.name) tokens)
      × All (λ t. t.name ≢ []) (new_static_token_authenticator tokens)
      × Distinct (map (λ t. t.name) tokens)
unfolding validate
validated_tokens tokens h =
    let (names, named) = validate_from-names [] tokens h in
    (names, named, validate_from-Distinct [] tokens h)
