-- ===== src/Cli/Print/Nested.antt =====
-- cmd/easyp-svc/config.go: the lines nest as the settings do.
use easyp_plugin_server.Common.{
  ℕ, zero, suc, ◌≡◌, ◌≢◌, ◌≤◌, inl, inr, refl, sym, ap, ◌∙◌, List, [], ◌∷◌, ◌++◌, Option, none,
  some, Text, All, text_eq, text_eq→eq, take, drop, length, length-append, take-append-drop,
  append_assoc, append-nil, Bool-cases, List-cases, arith,
}
use easyp_plugin_server.Config.Leaves.{Leaf}
use easyp_plugin_server.Config.Merge.{Origins}
use easyp_plugin_server.Cli.Print.{
  Values, PrintOptions, Line, section, setting, headers, common_prefix, parents, last_name, emit,
  setting_line, render_value, write_from, write_config,
}

-- The path of each setting as a reader of the lines sees it, under the sections of `path`.
abbrev pub read_from : List Text → List Line → List (List Text)
read_from path [] = []
read_from path (section depth name ∷ lines) = read_from (take depth path ++ name ∷ []) lines
read_from path (setting depth key value origin ∷ lines) =
    (take depth path ++ key ∷ []) ∷ read_from path lines

take-whole : {A : Type 0} (xs ys : List A) → take (length xs) (xs ++ ys) ≡ xs
take-whole [] ys = take-zero ys
  where
    take-zero : {A : Type 0} (ys : List A) → take 0 ys ≡ []
    take-zero ys = refl
take-whole (x ∷ xs) ys = ap (λ l. x ∷ l) (take-whole xs ys)

take-append : {A : Type 0} (n : ℕ) (xs ys : List A) → n ≤ length xs → take n (xs ++ ys) ≡ take n xs
take-append zero xs ys h = refl
take-append (suc n) [] ys h = absurd (omega (arith, h))
take-append (suc n) (x ∷ xs) ys h = ap (λ l. x ∷ l) (take-append n xs ys (omega (arith, h)))

length-take : {A : Type 0} (n : ℕ) (xs : List A) → n ≤ length xs → length (take n xs) ≡ n
length-take zero xs h = refl
length-take (suc n) [] h = omega (arith, h)
length-take (suc n) (x ∷ xs) h = omega (arith, length-take n xs (omega (arith, h)))

common_prefix-shared :
    (left right : List Text)
    → (take (common_prefix left right) left ≡ take (common_prefix left right) right)
      × (common_prefix left right ≤ length left)
unfolding common_prefix
common_prefix-shared [] right = (refl, omega arith)
common_prefix-shared (l ∷ left) [] = (refl, omega arith)
common_prefix-shared (l ∷ left) (r ∷ right) = elim (Bool-cases (text_eq l r)) [
  | inr e ↦ rw (e, common_prefix) (refl, omega arith)
  | inl e ↦
      let ih = common_prefix-shared left right in
      rw (e, common_prefix)
        (
          ap (λ h. h ∷ take (common_prefix left right) left) (text_eq→eq l r e)
              ∙ ap (λ t. r ∷ t) ih.0,
          omega (arith, ih.1),
        )
]

parents-last_name : (path : List Text) → path ≢ [] → parents path ++ last_name path ∷ [] ≡ path
unfolding parents last_name
parents-last_name [] h = absurd (h refl)
parents-last_name (name ∷ []) h = refl
parents-last_name (name ∷ next ∷ path) h =
    ap (λ l. name ∷ l) (parents-last_name (next ∷ path) (λ e. cc e))

take-length : {A : Type 0} (n : ℕ) (xs : List A) → length xs ≡ n → take n xs ≡ xs
take-length n xs h = rw (← h) (ap (take (length xs)) (sym (append-nil xs)) ∙ take-whole xs [])

-- Headers below sections that are there already.
headers-read :
    (path above : List Text) (depth : ℕ) (name : Text) (names : List Text) (lines : List Line)
    → take depth path ≡ above
    → length above ≡ depth
    → read_from path (headers depth (name ∷ names) ++ lines)
      ≡ read_from (above ++ name ∷ names) lines
unfolding headers
headers-read path above depth name [] lines t l = ap (λ p. read_from (p ++ name ∷ []) lines) t
headers-read path above depth name (next ∷ names) lines t l =
    let longer : length (above ++ name ∷ []) ≡ suc depth =
      omega (arith, length-append above (name ∷ []), l) in
    headers-read (take depth path ++ name ∷ []) (above ++ name ∷ []) (suc depth) next names lines
      (ap (λ p. take (suc depth) (p ++ name ∷ [])) t
        ∙ take-length (suc depth) (above ++ name ∷ []) longer)
      longer
    ∙ ap (λ p. read_from p lines) (append_assoc above (name ∷ []) (next ∷ names))

-- Behind the headers of a setting, its sections are in front of what is read next.
headers-above :
    (previous extra above : List Text) (lines : List Line)
    → (behind : List Text) × (read_from (previous ++ extra) (
          headers (common_prefix previous above) (drop (common_prefix previous above) above)
          ++ lines)
        ≡ read_from (above ++ behind) lines)
unfolding headers
headers-above previous extra above lines =
    let shared = common_prefix previous above in
    let (same, fits) = common_prefix-shared previous above in
    let whole = take-append-drop shared above in
    elim (List-cases (drop shared above)) [
      | inl e ↦
          let all : take shared previous ≡ above =
            same
            ∙ sym (append-nil (take shared above))
            ∙ ap (λ d. take shared above ++ d) (sym e)
            ∙ whole in
          (
            drop shared previous ++ extra,
            ap (λ d. read_from (previous ++ extra) (headers shared d ++ lines)) e
                ∙ ap (λ p. read_from p lines)
                    (ap (λ p. p ++ extra) (sym (take-append-drop shared previous))
                      ∙ append_assoc (take shared previous) (drop shared previous) extra
                      ∙ ap (λ p. p ++ (drop shared previous ++ extra)) all),
          )
      | inr (name, names, e) ↦ (
        [],
        ap (λ d. read_from (previous ++ extra) (headers shared d ++ lines)) e
            ∙ headers-read (previous ++ extra) (take shared previous) shared name names lines
                (take-append shared previous extra fits) (length-take shared previous fits)
            ∙ ap (λ p. read_from p lines)
                (ap (λ p. p ++ name ∷ names) same
                  ∙ ap (λ d. take shared above ++ d) (sym e)
                  ∙ whole
                  ∙ sym (append-nil above)),
      )
    ]

-- What is emitted, if anything is.
emit-some :
    (heads : List Line) (line : Text → Line) (rendered : Option Text) (rest : Option (List Line))
    (lines : List Line)
    → emit heads line rendered rest ≡ some lines
    → (value : Text) × (others : List Line) × (rest ≡ some others)
      × (lines ≡ heads ++ line value ∷ others)
unfolding emit
emit-some heads line none rest lines h = absurd (cc h)
emit-some heads line (some value) none lines h = absurd (cc h)
emit-some heads line (some value) (some others) lines h = (value, others, refl, sym (cc h))

abbrev pub HasPath : Leaf → Type 0
HasPath leaf = leaf.yaml_path ≢ []

abbrev pub paths_of : List Leaf → List (List Text)
paths_of [] = []
paths_of (leaf ∷ leaves) = leaf.yaml_path ∷ paths_of leaves

module _ {ℓ} {V : Type ℓ} (values : Values V) (cfg : Text → V) (origins : Origins)
    (opts : PrintOptions) where
  write_from-paths :
      (previous extra : List Text) (leaves : List Leaf) (lines : List Line)
      → All HasPath leaves
      → write_from values previous leaves cfg origins opts ≡ some lines
      → read_from (previous ++ extra) lines ≡ paths_of leaves
  unfolding write_from setting_line
  write_from-paths previous extra [] lines h w =
      let none_left : [] ≡ lines = cc w in ap (read_from (previous ++ extra)) (sym none_left)
  write_from-paths previous extra (leaf ∷ leaves) lines h w =
      let above = parents leaf.yaml_path in
      let key = last_name leaf.yaml_path in
      let shared = common_prefix previous above in
      let heads = headers shared (drop shared above) in
      let line = setting_line leaf origins opts in
      let (value, others, rest, all) =
        emit-some heads line (render_value values leaf cfg opts.show_secrets)
          (write_from values above leaves cfg origins opts) lines w in
      let (behind, read) = headers-above previous extra above (line value ∷ others) in
      let ih = write_from-paths above behind leaves others h.1 rest in
      ap (λ l. read_from (previous ++ extra) l) all
      ∙ read
      ∙ ap (λ p. (p ++ key ∷ []) ∷ read_from (above ++ behind) others) (take-whole above behind)
      ∙ ap (λ p. p ∷ read_from (above ++ behind) others) (parents-last_name leaf.yaml_path h.0)
      ∙ ap (λ ps. leaf.yaml_path ∷ ps) ih

  -- The lines that are written for settings, read as nested sections, name these settings in order.
  pub write_config-paths :
      (leaves : List Leaf) (lines : List Line)
      → All HasPath leaves
      → write_config values leaves cfg origins opts ≡ some lines
      → read_from [] lines ≡ paths_of leaves
  unfolding write_config
  write_config-paths leaves lines h w = write_from-paths [] [] leaves lines h w
