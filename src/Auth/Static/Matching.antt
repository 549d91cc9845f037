-- ===== src/Auth/Static/Matching.antt =====
-- Who is let in by a static token.
use easyp_plugin_server.Common.{
  if◌then◌else◌, subst, ◌≡◌, refl, sym, ◌∙◌, ap, ◌≢◌, true, ◌⊎◌, inl, inr, List, [], ◌∷◌, ◌++◌,
  some, Text, text_eq, text_eq_iff, ok, is_ok, Bool-cases, Option-cases, All,
}
use easyp_plugin_server.Auth.Static.{
  Actor, HashedToken, kind_token, bearer_token, match_from, authenticate,
}

-- A configured token with this digest and this name.
pub record Holds (tokens : List HashedToken) (digest name : Text) : Type 0 where
  pub before : List HashedToken
  pub token : HashedToken
  pub after : List HashedToken
  pub among : tokens ≡ before ++ token ∷ after
  pub same_digest : token.digest ≡ digest
  pub same_name : token.name ≡ name

skip-Holds :
    {tokens : List HashedToken} {digest name : Text} (t : HashedToken)
    → Holds tokens digest name
    → Holds (t ∷ tokens) digest name
skip-Holds t h = record {
  before = t ∷ h.before;
  token = h.token;
  after = h.after;
  among = ap (λ l. t ∷ l) h.among;
  same_digest = h.same_digest;
  same_name = h.same_name;
}

match_from-Holds :
    (sum matched : Text) (tokens : List HashedToken)
    → (match_from sum matched tokens ≡ matched) ⊎ Holds tokens sum (match_from sum matched tokens)
unfolding match_from
match_from-Holds sum matched [] = inl refl
match_from-Holds sum matched (t ∷ tokens) = elim (Bool-cases (text_eq sum t.digest)) [
  | inr e ↦
      rw (e, match_from)
        (elim (match_from-Holds sum matched tokens) [
          | inl h ↦ inl h
          | inr h ↦ inr (skip-Holds t h)
        ])
  | inl e ↦
      rw (e, match_from)
        (elim (match_from-Holds sum t.name tokens) [
          | inr h ↦ inr (skip-Holds t h)
          | inl h ↦ inr (record {
            before = [];
            token = t;
            after = tokens;
            among = refl;
            same_digest = sym ((text_eq_iff sum t.digest).0 e);
            same_name = sym h;
          })
        ])
]

-- A name once matched is replaced by names only.
match_from-named :
    (sum matched : Text) (tokens : List HashedToken)
    → All (λ t. t.name ≢ []) tokens
    → matched ≢ []
    → match_from sum matched tokens ≢ []
unfolding match_from
match_from-named sum matched [] named m = m
match_from-named sum matched (t ∷ tokens) named m = elim (Bool-cases (text_eq sum t.digest)) [
  | inl e ↦ rw (e, match_from) (match_from-named sum t.name tokens named.1 named.0)
  | inr e ↦ rw (e, match_from) (match_from-named sum matched tokens named.1 m)
]

match_from-found :
    (sum : Text) (before : List HashedToken) (matched : Text) (t : HashedToken)
    (after : List HashedToken)
    → All (λ u. u.name ≢ []) (before ++ t ∷ after)
    → t.digest ≡ sum
    → match_from sum matched (before ++ t ∷ after) ≢ []
unfolding match_from
match_from-found sum [] matched t after named e =
    rw ((text_eq_iff sum t.digest).1 (sym e), match_from)
      (match_from-named sum t.name after named.1 named.0)
match_from-found sum (u ∷ before) matched t after named e =
    match_from-found sum before (if text_eq sum u.digest then u.name else matched) t after named.1 e

-- Whoever is let in presented a token whose digest is configured, and is attributed to the name
-- configured with that digest, which is not empty.
pub authenticate_sound :
    (sha256 : Text → Text) (tokens : List HashedToken) (values : List Text) (a : Actor)
    → authenticate sha256 tokens values ≡ ok a
    → (presented : Text) × (bearer_token values ≡ some presented)
      × Holds tokens (sha256 presented) a.name
      × (a.name ≢ [])
unfolding authenticate
authenticate_sound sha256 tokens values a h = elim (Option-cases (bearer_token values)) [
  | inl e ↦ absurd (cc (rw (e, authenticate) at h))
  | inr (presented, e) ↦
      let matched = match_from (sha256 presented) [] tokens in
      elim (Bool-cases (text_eq matched [])) [
        | inl n ↦ absurd (cc (rw (e, n, authenticate) at h))
        | inr n ↦
            let answer : ok (record { name = matched; kind = kind_token }) ≡ ok a =
              rw (e, n, authenticate) at h in
            let named : matched ≡ a.name = cc (answer) in
            let some_name : matched ≢ [] = λ q. cc (n, (text_eq_iff matched []).1 q) in
            (
              presented,
              e,
              elim (match_from-Holds (sha256 presented) [] tokens) [
                | inl q ↦ absurd (some_name q)
                | inr q ↦ subst (Holds tokens (sha256 presented)) named q
              ],
              (λ q. some_name (named ∙ q)),
            )
      ]
]

-- With no configured name empty, whoever presents a token whose digest is configured is let in.
pub authenticate_complete :
    (sha256 : Text → Text) (tokens : List HashedToken) (values : List Text) (presented name : Text)
    → All (λ t. t.name ≢ []) tokens
    → bearer_token values ≡ some presented
    → Holds tokens (sha256 presented) name
    → is_ok (authenticate sha256 tokens values) ≡ true
unfolding authenticate
authenticate_complete sha256 tokens values presented name named b h =
    let found =
      subst (λ l. match_from (sha256 presented) [] l ≢ []) (sym h.among)
        (match_from-found (sha256 presented) h.before [] h.token h.after
          (subst (All (λ t. t.name ≢ [])) h.among named) h.same_digest) in
    elim (Bool-cases (text_eq (match_from (sha256 presented) [] tokens) [])) [
      | inl e ↦ absurd (found ((text_eq_iff (match_from (sha256 presented) [] tokens) []).0 e))
      | inr e ↦ rw (b, e, authenticate) refl
    ]
