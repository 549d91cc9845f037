-- ===== src/Audit/Partitions/Upcoming.antt =====
-- What pre-creation leaves in the catalogue.
use easyp_plugin_server.Common.{
  ℕ, zero, suc, ◌+◌, ◌≡◌, refl, sym, ap, ◌∙◌, inl, inr, Bool, true, false, ◌||◌, List, [], ◌∷◌, map,
  Text, text_eq, length, ok, member, arith, Result-cases, pos,
}
use easyp_plugin_server.Audit.Partitions.{
  Database, partition_name, months_from, upcoming_months, create_all, ensure_partitions,
}
use easyp_plugin_server.Audit.Partitions.Retention.{Catalogue}

-- What Postgres promises of CREATE TABLE IF NOT EXISTS ... PARTITION OF.
pub record Creates {D : Database} (C : Catalogue D) : Type 0 where
  pub created :
      {s t : D.State} {name : Text} {lo hi : ℕ}
      → D.create_partition name lo hi s ≡ ok t
      → (x : Text) → member x (C.partitions t) ≡ (text_eq name x || member x (C.partitions s))

or-swap : (a b c : Bool) → (a || (b || c)) ≡ ((b || a) || c)
or-swap true true c = refl
or-swap true false c = refl
or-swap false true c = refl
or-swap false false c = refl

length-months_from : (start left : ℕ) → length (months_from start left) ≡ left + 1
unfolding months_from
length-months_from start zero = refl
length-months_from start (suc left) = omega (arith, length-months_from (suc start) left)

module _ {D : Database} (C : Catalogue D) (K : Creates C) where
  open C use {partitions}

  create_all-members :
      (months : List ℕ) (s t : D.State) (n : ℕ)
      → create_all D months s ≡ ok (n, t)
      → (n ≡ length months)
        × ((x : Text)
            → member x (partitions t)
              ≡ (member x (map partition_name months) || member x (partitions s)))
  unfolding create_all member
  create_all-members [] s t n h =
      let number : 0 ≡ n = cc (h) in
      let same : s ≡ t = cc (h) in (sym number, λ x. ap (λ u. member x (partitions u)) (sym same))
  create_all-members (month ∷ months) s t n h =
      elim (Result-cases (D.create_partition (partition_name month) month (suc month) s)) [
        | inr (e, q) ↦ absurd (cc (rw (q, create_all) at h))
        | inl (s', q) ↦ elim (Result-cases (create_all D months s')) [
          | inr (e, w) ↦ absurd (cc (rw (q, w, create_all) at h))
          | inl ((m, u), w) ↦
              let answer : ok (suc m, u) ≡ ok (n, t) = rw (q, w, create_all) at h in
              let number : suc m ≡ n = cc (answer) in
              let same : u ≡ t = cc (answer) in
              let (counted, members) = create_all-members months s' u m w in
              (
                omega (arith, number, counted),
                (λ x.
                    ap (λ v. member x (partitions v)) (sym same)
                    ∙ members x
                    ∙ ap (λ b. member x (map partition_name months) || b) (K.created q x)
                    ∙ or-swap (member x (map partition_name months))
                        (text_eq (partition_name month) x) (member x (partitions s))),
              )
        ]
      ]

  -- A pre-creation that has the lock and succeeds adds exactly the partitions of the current month
  -- and of the configured number behind it to the catalogue, loses none, and counts them all.
  pub ensure_partitions-upcoming :
      (now ahead n : ℕ) (s t : D.State) (x : Text)
      → D.acquire_lock s ≡ ok true
      → ensure_partitions D (upcoming_months now (pos ahead)) s ≡ (ok n, t)
      → (n ≡ ahead + 1)
        × (member x (partitions t)
            ≡ (member x (map partition_name (months_from now ahead)) || member x (partitions s)))
  unfolding ensure_partitions upcoming_months
  ensure_partitions-upcoming now ahead n s t x locked h =
      elim (Result-cases (create_all D (months_from now ahead) s)) [
        | inr (e, w) ↦ absurd (cc (rw (locked, w, ensure_partitions) at h))
        | inl ((m, u), w) ↦
            let answer : (ok m, u) ≡ (ok n, t) = rw (locked, w, ensure_partitions) at h in
            let number : m ≡ n = cc (answer) in
            let same : u ≡ t = cc (answer) in
            let (counted, members) = create_all-members (months_from now ahead) s u m w in
            (
              omega (arith, number, counted, length-months_from now ahead),
              ap (λ v. member x (partitions v)) (sym same) ∙ members x,
            )
      ]
