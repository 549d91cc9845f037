-- ===== src/Registry/Query/Selected.antt =====
-- What the query of List asks for: the rows that the filter describes, beyond the key.
use easyp_plugin_server.Common.{
  ℕ, suc, ◌+◌, ◌≡◌, refl, sym, ap, ◌∙◌, subst, Bool, true, false, ◌&&◌, ◌||◌, inl, inr, List, [],
  ◌∷◌, ◌++◌, append_assoc, append-nil, Option, none, some, Text, text_eq, arith, take, length,
  length-append, Bool-cases, List-cases, ℤ, not_positive, magnitude, if◌then◌else◌,
}
use easyp_plugin_server.Core.Domain.{PluginFilter, PluginKey, PluginPage}
use easyp_plugin_server.Registry.Query.{
  Row, row_key, Arg, text_arg, texts_arg, size_arg, Column, Clause, column_is, tags_contain,
  row_beyond, Building, empty_query, where_column, non_empty_tags, where_tags, where_after,
  limit_to, listing, list_query, arg_at, column, has_all, holds, both, satisfies, limit_of,
}

arg_at-append :
    (args : List Arg) (a : Arg) (more : List Arg)
    → arg_at (args ++ a ∷ more) (suc (length args)) ≡ some a
arg_at-append [] a more = refl
arg_at-append (b ∷ args) a more = arg_at-append args a more

both-true : (x : Option Bool) → both x (some true) ≡ both (some true) x
both-true none = refl
both-true (some true) = refl
both-true (some false) = refl

both_assoc : (x y z : Option Bool) → both x (both y z) ≡ both (both x y) z
both_assoc none y z = refl
both_assoc (some a) none z = refl
both_assoc (some a) (some b) none = refl
both_assoc (some true) (some b) (some c) = refl
both_assoc (some false) (some b) (some c) = refl

-- An empty value asks for nothing.
abbrev pub asks : Column → Text → Row → Bool
asks c value p = text_eq value [] || text_eq (column c p) value

-- The rows that a filter describes.
unfoldable pub matches : PluginFilter → Row → Bool
unfolding text_eq has_all non_empty_tags
matches filter p =
    asks Column.column_group filter.group p
    && asks Column.column_name filter.name p
    && asks Column.column_version filter.version p
    && has_all p.tags (non_empty_tags filter.tags)

-- What a page asks for of the rows in order: no more than its size, where it has one.
unfoldable pub first_rows : ℤ → List Row → List Row
first_rows size rows = if not_positive size then rows else take (magnitude size) rows

module _ (key_lt : PluginKey → PluginKey → Bool) where
  satisfies-append :
      (args : List Arg) (p : Row) (cs : List Clause) (c : Clause)
      → satisfies key_lt args p (cs ++ c ∷ [])
        ≡ both (satisfies key_lt args p cs) (holds key_lt args p c)
  satisfies-append args p [] c = both-true (holds key_lt args p c)
  satisfies-append args p (d ∷ cs) c =
      ap (both (holds key_lt args p d)) (satisfies-append args p cs c)
      ∙ both_assoc (holds key_lt args p d) (satisfies key_lt args p cs) (holds key_lt args p c)

  -- The clauses so far have a meaning, whatever is bound behind their arguments.
  pub record Built (b : Building) (test : Row → Bool) : Type 0 where
    pub next : b.arg_id ≡ suc (length b.args)
    pub means :
        (more : List Arg) (p : Row) → satisfies key_lt (b.args ++ more) p b.clauses ≡ some (test p)

  extend :
      (b : Building) (test : Row → Bool) (c : Clause) (added : List Arg) (n : ℕ) (t : Row → Bool)
      → Built b test
      → ((more : List Arg) (p : Row) → holds key_lt (b.args ++ (added ++ more)) p c ≡ some (t p))
      → n ≡ suc (length (b.args ++ added))
      → Built
          (record { clauses = b.clauses ++ c ∷ []; args = b.args ++ added; arg_id = n })
          (λ p. test p && t p)
  extend b test c added n t h says counts = record {
    next = counts;
    means = λ more p.
        ap (λ args. satisfies key_lt args p (b.clauses ++ c ∷ [])) (append_assoc b.args added more)
        ∙ satisfies-append (b.args ++ (added ++ more)) p b.clauses c
        ∙ rw (h.means (added ++ more) p, says more p) refl;
  }

  empty_query-Built : Built empty_query (λ p. true)
  empty_query-Built = record { next = refl; means = λ more p. refl }

  same-Built :
      (b : Building) (test other : Row → Bool)
      → ((p : Row) → test p ≡ other p)
      → Built b test
      → Built b other
  same-Built b test other e h = record {
    next = h.next;
    means = λ more p. h.means more p ∙ ap some (e p);
  }

  where_column-Built :
      (c : Column) (value : Text) (b : Building) (test : Row → Bool)
      → Built b test
      → Built (where_column c value b) (λ p. test p && asks c value p)
  unfolding where_column
  where_column-Built c value b test h = elim (Bool-cases (text_eq value [])) [
    | inl e ↦ rw (e, where_column) (same-Built b test _ (λ p. ground arith) h)
    | inr e ↦
        rw (e, where_column)
          (extend b test (column_is c b.arg_id) (text_arg value ∷ []) (b.arg_id + 1)
            (λ p. text_eq (column c p) value) h
            (λ more p. rw (h.next, arg_at-append b.args (text_arg value) more) refl)
            (rw (h.next, length-append) (omega arith)))
  ]

  where_tags-Built :
      (tags : List Text) (b : Building) (test : Row → Bool)
      → Built b test
      → Built (where_tags tags b) (λ p. test p && has_all p.tags (non_empty_tags tags))
  unfolding where_tags
  where_tags-Built tags b test h = elim (List-cases (non_empty_tags tags)) [
    | inl e ↦ rw (e, where_tags) (same-Built b test _ (λ p. unfold has_all in ground arith) h)
    | inr (t, ts, e) ↦
        rw (e, where_tags)
          (extend b test (tags_contain b.arg_id) (texts_arg (t ∷ ts) ∷ []) (b.arg_id + 1)
            (λ p. has_all p.tags (t ∷ ts)) h
            (λ more p. rw (h.next, arg_at-append b.args (texts_arg (t ∷ ts)) more) refl)
            (rw (h.next, length-append) (omega arith)))
  ]

  abbrev pub beyond_key : Option PluginKey → Row → Bool
  beyond_key none p = true
  beyond_key (some k) p = key_lt k (row_key p)

  -- The argument behind the last one that `arg_at-append` finds.
  arg_at-behind :
      (args : List Arg) (x y : Arg) (more : List Arg)
      → arg_at (args ++ x ∷ y ∷ more) (suc (suc (length args))) ≡ some y
  arg_at-behind [] x y more = refl
  arg_at-behind (b ∷ args) x y more = arg_at-behind args x y more

  arg_at-third :
      (args : List Arg) (x y z : Arg) (more : List Arg)
      → arg_at (args ++ x ∷ y ∷ z ∷ more) (suc (suc (suc (length args)))) ≡ some z
  arg_at-third [] x y z more = refl
  arg_at-third (b ∷ args) x y z more = arg_at-third args x y z more

  where_after-Built :
      (after : Option PluginKey) (b : Building) (test : Row → Bool)
      → Built b test
      → Built (where_after after b) (λ p. test p && beyond_key after p)
  unfolding where_after
  where_after-Built none b test h = same-Built b test _ (λ p. ground arith) h
  where_after-Built (some k) b test h =
      let g = text_arg k.group in
      let n = text_arg k.name in
      let v = text_arg k.version in
      extend b test (row_beyond b.arg_id (b.arg_id + 1) (b.arg_id + 1 + 1)) (g ∷ n ∷ v ∷ [])
        (b.arg_id + 1 + 1 + 1) (beyond_key (some k)) h
        (λ more p.
          let l = b.args ++ g ∷ n ∷ v ∷ more in
          let at_g =
            subst (λ i. arg_at l i ≡ some g) (sym h.next) (arg_at-append b.args g (n ∷ v ∷ more)) in
          let at_second : suc (suc (length b.args)) ≡ b.arg_id + 1 = omega (arith, h.next) in
          let at_last : suc (suc (suc (length b.args))) ≡ b.arg_id + 1 + 1 =
            omega (arith, h.next) in
          let at_n =
            subst (λ i. arg_at l i ≡ some n) at_second (arg_at-behind b.args g n (v ∷ more)) in
          let at_v = subst (λ i. arg_at l i ≡ some v) at_last (arg_at-third b.args g n v more) in
          rw (at_g, at_n, at_v) refl)
        (rw (h.next, length-append) (omega arith))

  and_regroup : (g n v t a : Bool) → ((((true && g) && n) && v) && t) && a ≡ (g && n && v && t) && a
  and_regroup false n v t a = refl
  and_regroup true false v t a = refl
  and_regroup true true false t a = refl
  and_regroup true true true t a = refl

  listing-Built :
      (filter : PluginFilter) (after : Option PluginKey)
      → Built (listing filter after) (λ p. matches filter p && beyond_key after p)
  unfolding listing matches
  listing-Built filter after =
      let grouped = where_column-Built Column.column_group filter.group _ _ empty_query-Built in
      let named = where_column-Built Column.column_name filter.name _ _ grouped in
      let versioned = where_column-Built Column.column_version filter.version _ _ named in
      same-Built _ _ _
        (λ p.
          and_regroup (asks Column.column_group filter.group p)
            (asks Column.column_name filter.name p) (asks Column.column_version filter.version p)
            (has_all p.tags (non_empty_tags filter.tags)) (beyond_key after p))
        (where_after-Built after _ _ (where_tags-Built filter.tags _ _ versioned))

  limit_to-means :
      (size : ℤ) (b : Building) (test : Row → Bool)
      → Built b test
      → ((p : Row)
          → satisfies key_lt (limit_to size b).args p (limit_to size b).clauses ≡ some (test p))
        × ((rows : List Row)
            → limit_of (limit_to size b).args (limit_to size b).limit rows
              ≡ some (first_rows size rows))
  unfolding limit_to first_rows
  limit_to-means size b test h = elim (Bool-cases (not_positive size)) [
    | inl e ↦
        rw (e, limit_to, first_rows)
          (
            (λ p.
                ap (λ args. satisfies key_lt args p b.clauses) (sym (append-nil b.args))
                ∙ h.means [] p),
            (λ rows. refl),
          )
    | inr e ↦
        rw (e, limit_to, first_rows)
          (
            (λ p. h.means (size_arg size ∷ []) p),
            (λ rows. rw (h.next, arg_at-append b.args (size_arg size) []) refl),
          )
  ]

  -- The clauses of the query of List are true of the rows that match the filter and lie beyond the
  -- key, and its limit is the page's size, whatever is asked for and left out.
  pub list_query-means :
      (filter : PluginFilter) (page : PluginPage)
      → ((p : Row)
          → satisfies key_lt (list_query filter page).args p (list_query filter page).clauses
            ≡ some (matches filter p && beyond_key page.after p))
        × ((rows : List Row)
            → limit_of (list_query filter page).args (list_query filter page).limit rows
              ≡ some (first_rows page.size rows))
  unfolding list_query limit_to first_rows
  list_query-means filter page =
      limit_to-means page.size (listing filter page.after) _ (listing-Built filter page.after)
