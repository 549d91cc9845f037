-- ===== src/Core/Service/Paging.antt =====
-- ListPlugins page by page: what a client sees that follows the continuation key.
use easyp_plugin_server.Common.{
  ℕ, zero, suc, ◌+◌, ◌≤◌, ◌<◌, ◌≡◌, refl, sym, ap, ◌∙◌, Bool, true, false, [], ◌∷◌, ◌++◌, List,
  some, none, Option, arith, length, take, drop, keep, take-append-drop, append_assoc, All, lt→ltb,
  ℤ, pos, Result, ok, err, Text, subst,
}
use mathlib.Core.Option
use native.Mathlib.Decide.{dec_lt}
use easyp_plugin_server.Core.Domain.{
  Operation, PluginInfo, PluginFilter, PluginKey, PluginList, Context, Registry,
}
use easyp_plugin_server.Core.Errors.{Error}
use easyp_plugin_server.Core.Service.{
  Core, World, key_of, last_of, cut_page, normalise_size, list_plugins, succeed,
}

-- The order of the listing: strict, front PostgreSQL compares (group_name, name, version).
pub record KeyOrder : Type 0 where
  pub key_lt : PluginKey → PluginKey → Bool
  pub irrefl : (k : PluginKey) → key_lt k k ≡ false
  pub trans : (j k l : PluginKey) → key_lt j k ≡ true → key_lt k l ≡ true → key_lt j l ≡ true

module _ (O : KeyOrder) where
  open O use {key_lt}

  abbrev pub follows : PluginKey → PluginInfo → Bool
  follows k p = key_lt k (key_of p)

  -- order by group_name, name, version, with no two rows alike
  abbrev pub Ascending : List PluginInfo → Type 0
  Ascending [] = Unit
  Ascending (p ∷ ps) = All (λ q. follows (key_of p) q ≡ true) ps × Ascending ps

  -- where (group_name, name, version) > (…)
  abbrev pub beyond : Option PluginKey → List PluginInfo → List PluginInfo
  beyond none ps = ps
  beyond (some k) ps = keep (follows k) ps

  keep-All :
      (k : PluginKey) (ps : List PluginInfo)
      → All (λ q. follows k q ≡ true) ps
      → keep (follows k) ps ≡ ps
  keep-All k [] h = refl
  keep-All k (p ∷ ps) h = ground (arith, keep-All k ps h.1)

  follows_asym : (p q : PluginInfo) → follows (key_of p) q ≡ true → follows (key_of q) p ≡ false
  follows_asym p q h =
      ground (arith, O.irrefl (key_of p), O.trans (key_of p) (key_of q) (key_of p) h)

  All-mid :
      (P : PluginInfo → Type 0) (front : List PluginInfo) (r : PluginInfo) (back : List PluginInfo)
      → All P (front ++ r ∷ back)
      → P r
  All-mid P [] r back h = h.0
  All-mid P (a ∷ front) r back h = All-mid P front r back h.1

  -- The rows beyond the key of a row of the listing are those behind it.
  beyond_row :
      (front : List PluginInfo) (r : PluginInfo) (back : List PluginInfo)
      → Ascending (front ++ r ∷ back)
      → keep (follows (key_of r)) (front ++ r ∷ back) ≡ back
  beyond_row [] r back h = ground (arith, O.irrefl (key_of r), keep-All (key_of r) back h.0)
  beyond_row (a ∷ front) r back h =
      ground (arith, beyond_row front r back h.1, follows_asym a r (All-mid _ front r back h.0))

last_of-append :
    (p : PluginInfo) (ps : List PluginInfo)
    → (init : List PluginInfo) × (r : PluginInfo) × (p ∷ ps ≡ init ++ r ∷ [])
      × (last_of (p ∷ ps) ≡ some (key_of r))
unfolding last_of
last_of-append p [] = ([], p, refl, refl)
last_of-append p (q ∷ ps) =
    let (init, r, e, l) = last_of-append q ps in (p ∷ init, r, ap (λ xs. p ∷ xs) e, l)

-- The size that is used is at least 1 and at most the ceiling.
normalise_size_bounds : (z : ℤ) → (1 ≤ normalise_size z) × (normalise_size z ≤ 1000)
unfolding normalise_size
normalise_size_bounds z = ground arith

take_last :
    (n : ℕ) (ys : List PluginInfo)
    → 1 ≤ n
    → n < length ys
    → (init : List PluginInfo) × (r : PluginInfo) × (take n ys ≡ init ++ r ∷ [])
      × (last_of (take n ys) ≡ some (key_of r))
take_last zero ys h m = absurd (omega arith)
take_last (suc n) [] h m = absurd (omega arith)
take_last (suc n) (y ∷ ys) h m = last_of-append y (take n ys)

module _ {ℓ} {A : Type ℓ} where
  take_all : (n : ℕ) (xs : List A) → length xs ≤ n → take n xs ≡ xs
  take_all zero [] h = refl
  take_all zero (x ∷ xs) h = absurd (omega arith)
  take_all (suc n) [] h = refl
  take_all (suc n) (x ∷ xs) h = ap (λ ys. x ∷ ys) (take_all n xs (omega arith))

  take-take-suc : (n : ℕ) (xs : List A) → take n (take (suc n) xs) ≡ take n xs
  take-take-suc zero xs = refl
  take-take-suc (suc n) [] = refl
  take-take-suc (suc n) (x ∷ xs) = ap (λ ys. x ∷ ys) (take-take-suc n xs)

  length-take-suc : (n : ℕ) (xs : List A) → n < length xs → n < length (take (suc n) xs)
  length-take-suc zero [] h = absurd (omega arith)
  length-take-suc zero (x ∷ xs) h = omega arith
  length-take-suc (suc n) [] h = absurd (omega arith)
  length-take-suc (suc n) (x ∷ xs) h = omega (arith, length-take-suc n xs)

  length-drop_lt : (n : ℕ) (xs : List A) → 1 ≤ n → n < length xs → length (drop n xs) < length xs
  length-drop_lt zero xs p h = absurd (omega arith)
  length-drop_lt (suc n) [] p h = absurd (omega arith)
  length-drop_lt (suc zero) (x ∷ xs) p h = omega arith
  length-drop_lt (suc (suc n)) (x ∷ xs) p h = omega (arith, length-drop_lt (suc n) xs)

rows_at_drop :
    (front ys : List PluginInfo) (n : ℕ) → front ++ ys ≡ (front ++ take n ys) ++ drop n ys
rows_at_drop front ys n = simp (append_assoc, take-append-drop)

rows_at :
    (front ys : List PluginInfo) (n : ℕ) (init : List PluginInfo) (r : PluginInfo)
    → take n ys ≡ init ++ r ∷ []
    → front ++ ys ≡ (front ++ init) ++ r ∷ drop n ys
rows_at front ys n init r e = rows_at_drop front ys n ∙ rw e (simp append_assoc)

cut_page_last :
    (n : ℕ) (ys : List PluginInfo)
    → length ys ≤ n
    → cut_page n (take (suc n) ys) ≡ record { plugins = ys; next = none }
unfolding cut_page
cut_page_last n ys h = rw (take_all (suc n) ys (omega arith)) (ground arith)

cut_page_more :
    (n : ℕ) (ys : List PluginInfo)
    → n < length ys
    → cut_page n (take (suc n) ys) ≡ record { plugins = take n ys; next = last_of (take n ys) }
unfolding cut_page
cut_page_more n ys h = rw (lt→ltb n _ (length-take-suc n ys h), cut_page, take-take-suc n ys)

-- What the service needs of Registry.List here: the rows that match the filter, beyond the key,
-- in the order of the listing, at most as many as asked for, and no change of state.
pub record ListsInOrder (R : Registry) (O : KeyOrder) (filter : PluginFilter) (s : R.State)
    (rows : List PluginInfo) : Type 0 where
  pub ascending : Ascending O rows
  pub lists :
      (n : ℕ) (after : Option PluginKey)
      → R.list filter (record { size = pos (n + 1); after = after }) s
        ≡ (ok (take (suc n) (beyond O after rows)), s)

module _ (R : Registry) (c : Core) (ctx : Context) (filter : PluginFilter) (size : ℤ) where
  -- A client that asks for pages until one has no continuation key; `none` is a failed call or
  -- too little fuel.
  unfoldable pub walk : ℕ → Option PluginKey → World R → Option (List PluginInfo)
  walk zero after w = none
  walk (suc fuel) after w =
      let (listed, w') = list_plugins R c ctx filter (record { size = size; after = after }) w in
      elim listed [
        | err e ↦ none
        | ok l ↦ elim l.next [
          | none ↦ some l.plugins
          | some k ↦ Option.map (λ rest. l.plugins ++ rest) (walk fuel (some k) w')
        ]
      ]

  succeed-registry :
      (metadata : List (Text × ℕ)) (l : PluginList) (w : World R)
      → (succeed R c ctx Operation.list_plugins [] metadata l w).1.registry ≡ w.registry
  unfolding succeed
  succeed-registry metadata l w = ground arith

  page_of_probe :
      (after : Option PluginKey) (w : World R) (probe : List PluginInfo)
      → R.list filter (record { size = pos (normalise_size size + 1); after = after }) w.registry
        ≡ (ok probe, w.registry)
      → ((list_plugins R c ctx filter (record { size = size; after = after }) w).0
          ≡ ok (cut_page (normalise_size size) probe))
        × ((list_plugins R c ctx filter (record { size = size; after = after }) w).1.registry
            ≡ w.registry)
  unfolding list_plugins
  page_of_probe after w probe h = (
    rw (h, list_plugins),
    rw (h, list_plugins)
        (succeed-registry _ (cut_page (normalise_size size) probe) _ ∙ ap (λ t. t.1) h),
  )

  module _ (O : KeyOrder) (rows : List PluginInfo) where
    abbrev listed : Option PluginKey → World R → Result Error PluginList
    listed after w = (list_plugins R c ctx filter (record { size = size; after = after }) w).0

    abbrev after_page : Option PluginKey → World R → World R
    after_page after w = (list_plugins R c ctx filter (record { size = size; after = after }) w).1

    list_plugins_page :
        (after : Option PluginKey) (w : World R)
        → ListsInOrder R O filter w.registry rows
        → (listed after w
            ≡ ok (
                cut_page
                  (normalise_size size)
                  (take (suc (normalise_size size)) (beyond O after rows))))
          × ((after_page after w).registry ≡ w.registry)
    list_plugins_page after w L = page_of_probe after w _ (L.lists (normalise_size size) after)

    -- The walk from a row on gives the rows from there on.
    walk_from :
        (fuel : ℕ) (after : Option PluginKey) (w : World R) (front ys : List PluginInfo)
        → ListsInOrder R O filter w.registry rows
        → rows ≡ front ++ ys
        → beyond O after rows ≡ ys
        → length ys < fuel
        → walk fuel after w ≡ some ys
    unfolding walk
    walk_from zero after w front ys L e b h = absurd (omega arith)
    walk_from (suc fuel) after w front ys L e b h =
        let n = normalise_size size in
        let page =
          subst (λ v. listed after w ≡ ok (cut_page n (take (suc n) v))) b
            (list_plugins_page after w L).0 in
        let same = (list_plugins_page after w L).1 in
        elim (dec_lt n (length ys)) [
          | no stop ↦ rw (page ∙ ap ok (cut_page_last n ys (omega arith)), walk)
          | yes more ↦
              let (init, r, split, last) = take_last n ys (normalise_size_bounds size).0 more in
              let at_row = e ∙ rows_at front ys n init r split in
              let rest =
                walk_from fuel (some (key_of r)) (after_page after w) (front ++ take n ys)
                  (drop n ys) (subst (λ s. ListsInOrder R O filter s rows) (sym same) L)
                  (e ∙ rows_at_drop front ys n)
                  (subst (λ v. beyond O (some (key_of r)) v ≡ drop n ys) (sym at_row)
                    (beyond_row O (front ++ init) r (drop n ys)
                      (subst (Ascending O) at_row L.ascending)))
                  (omega (arith, length-drop_lt n ys (normalise_size_bounds size).0 more)) in
              rw (page ∙ ap ok (cut_page_more n ys more), last, rest, walk)
                (ap some (take-append-drop n ys))
        ]

-- Following the continuation keys from the first page lists every matching row exactly once and in
-- order, whatever page size is asked for: as many rounds as there are rows, and one more, suffice.
pub walk_all :
    (R : Registry) (c : Core) (ctx : Context) (filter : PluginFilter) (size : ℤ) (O : KeyOrder)
    (rows : List PluginInfo) (w : World R)
    → ListsInOrder R O filter w.registry rows
    → walk R c ctx filter size (suc (length rows)) none w ≡ some rows
walk_all R c ctx filter size O rows w L =
    walk_from R c ctx filter size O rows (suc (length rows)) none w [] rows L refl refl
      (omega arith)
