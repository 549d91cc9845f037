-- ===== src/Tests/Memory.antt =====
-- A database, a storage and a disk in memory for the registry.
use easyp_plugin_server.Common.{
  ℕ, ◌≡◌, refl, sym, ap, ◌∙◌, Bool, true, false, not, List, [], ◌∷◌, Option, none, some, Text,
  codes, text_eq, text_eq→eq, Bool-cases, inl, inr, keep, length, Result, ok, err, if◌then◌else◌,
  lookup,
}
use easyp_plugin_server.Core.Errors.{Error}
use easyp_plugin_server.Registry.Query.{Row, info, Arg, Query, satisfies, limit_of, arg_at, as_text}
use easyp_plugin_server.Registry.Config.{Json, PluginConfig, Resolved}
use easyp_plugin_server.Registry.Config.Checked.{JsonLaws}
use easyp_plugin_server.Registry.Backend.{Backend, Failure, no_rows, failed, found, UpdateQuery}
use easyp_plugin_server.Registry.Plugins.Listed.{Table}
use easyp_plugin_server.Registry.Plugins.Written.{Writes, WrittenTable, assign, has_key, rewritten}
use easyp_plugin_server.Tests.Service.{by_length}

-- A document is its checksum; its program is always the same.
abbrev pub marshal_one : List (Text × Text) → Option Text
marshal_one [] = none
marshal_one ((k, v) ∷ []) = if text_eq (codes "sha256") k then some v else none
marshal_one ((k, v) ∷ e ∷ m) = none

abbrev pub json : Json
json = record {
  Value = Text;
  unmarshal_config =
      λ t. some (record { command = codes "/plugins/x" ∷ []; env = []; timeout = []; sha256 = t });
  unmarshal_map = λ t. some ((codes "sha256", t) ∷ []);
  string_value = λ t. t;
  marshal = marshal_one;
  is_sha256 = text_eq (codes "sha256");
}

module _ {Rows : Type 0} (select : Query → Rows → Result Failure (List Row))
    (update_row : UpdateQuery → Rows → Result Failure Row × Rows)
    (delete_rows : Text → Text → Text → Rows → Result Error ℕ × Rows) where
  abbrev pub backend : Backend
  backend = record {
    json = json;
    Rows = Rows;
    select = select;
    insert_row = λ req rows. (err no_rows, rows);
    update_row = update_row;
    delete_rows = delete_rows;
    Objects = Text;
    open_object = λ key archive. ok (ok archive);
    object_exists = λ key archive. ok true;
    download = λ key archive. ok archive;
    delete_object = λ key archive. (ok tt, []);
    Disk = List Text;
    stat = λ p disk. found;
    eval_symlinks = λ disk p. Resolved.resolved p;
    stage = λ disk. (ok tt, disk);
    discard = λ disk. disk;
    read_failure = λ disk. none;
    unpack = λ contents version_dir disk. (ok tt, contents ∷ disk);
    remove_all = λ version_dir disk. [];
    measure = λ version_dir disk. some 1;
    while_waiting = λ disk. disk;
    digest = λ contents. b'd' ∷ contents;
    plugins_dir = codes "/plugins";
    has_storage = true;
  }

abbrev pub row : Text → Row
row name = record {
  id = [];
  group_name = codes "grpc";
  name = name;
  version = codes "v1.0";
  config = [];
  tags = [];
  created_at = 0;
}

abbrev pub two : List Row
two = row (codes "a") ∷ row (codes "bb") ∷ []

abbrev pub holds_all : Option Bool → Bool
holds_all none = false
holds_all (some b) = b

abbrev pub answer : Option (List Row) → Result Failure (List Row)
answer none = err (failed [])
answer (some rows) = ok rows

abbrev pub evaluate : Query → List Row → Result Failure (List Row)
evaluate q rows = answer (
    limit_of q.args q.limit
      (keep (λ p. holds_all (satisfies by_length.key_lt q.args p q.clauses)) rows))

pub keep-same :
    (s t : Row → Bool) (rows : List Row) → ((p : Row) → s p ≡ t p) → keep s rows ≡ keep t rows
keep-same s t [] h = refl
keep-same s t (p ∷ rows) h = rw (h p, keep-same s t rows h) refl

abbrev pub fixed : Backend
fixed =
    backend {Rows = Unit {0}} (λ q u. evaluate q two) (λ q u. (err no_rows, u))
      (λ g n v u. (ok 0, u))

unfoldable pub fixed_table : Table fixed by_length
unfolding info
fixed_table = record {
  table = λ u. two;
  ordered = λ u. ((refl, tt), (tt, tt));
  selects = λ q u test rows by bound limited. ap answer (
      ap (limit_of q.args q.limit) (
        keep-same (λ p. holds_all (satisfies by_length.key_lt q.args p q.clauses)) test two
          (λ p. ap holds_all (bound p)))
      ∙ limited);
}

some_inj : {A : Type 0} {x y : A} → some x ≡ some y → x ≡ y
some_inj h = cc (h)

marshal_one-back :
    (m : List (Text × Text)) (t : Text)
    → marshal_one m ≡ some t
    → (m' : List (Text × Text)) × (some ((codes "sha256", t) ∷ []) ≡ some m')
      × ((k : Text) → lookup k m' ≡ lookup k m)
marshal_one-back [] t h = absurd (cc (h))
marshal_one-back ((k, v) ∷ []) t h = elim (Bool-cases (text_eq (codes "sha256") k)) [
  | inr other ↦
      let refused : marshal_one ((k, v) ∷ []) ≡ none = rw other refl in absurd (cc (refused, h))
  | inl same ↦
      let written : marshal_one ((k, v) ∷ []) ≡ some v = rw same refl in
      let value : v ≡ t = cc (written, h) in
      let key = text_eq→eq (codes "sha256") k same in
      (
        (codes "sha256", t) ∷ [],
        refl,
        (λ j. ap (λ c. lookup j ((c, t) ∷ [])) key ∙ ap (λ x. lookup j ((k, x) ∷ [])) (sym value)),
      )
]
marshal_one-back ((k, v) ∷ e ∷ m) t h = absurd (cc (h))

json_field :
    (t hex : Text) (m : List (Text × Text)) (c d : PluginConfig)
    → some ((codes "sha256", t) ∷ []) ≡ some m
    → some d ≡ some c
    → d.sha256 ≡ t
    → lookup (codes "sha256") m ≡ some hex
    → c.sha256 ≡ hex
unfolding lookup text_eq
json_field t hex m c d read parsed value at =
    let whole : (codes "sha256", t) ∷ [] ≡ m = some_inj read in
    let bound : some t ≡ some hex = ap (lookup (codes "sha256")) whole ∙ at in
    let same : d ≡ c = some_inj parsed in ap (λ c. c.sha256) (sym same) ∙ value ∙ some_inj bound

pub json_laws : JsonLaws json
json_laws = record {
  reads_back = marshal_one-back;
  reads_field = λ t hex m c read parsed exact at. json_field t hex m c _ read parsed refl at;
}

abbrev pub written_text : Option Arg → Text
written_text a = elim (as_text a) [ none ↦ [] | some t ↦ t ]

abbrev pub assigned : UpdateQuery → Row → Row
assigned q p = elim (assign q.args p q.set_clauses) [ none ↦ p | some p' ↦ p' ]

abbrev pub update_keyed :
    Text → Text → Text → UpdateQuery → List Row → Result Failure Row × List Row
update_keyed group name version q rows = elim (keep (has_key group name version) rows) [
  | [] ↦ (err no_rows, rows)
  | p ∷ ps ↦ (ok (assigned q p), rewritten group name version (assigned q) rows)
]

abbrev pub update_rows : UpdateQuery → List Row → Result Failure Row × List Row
update_rows q rows =
    update_keyed (written_text (arg_at q.args q.group_at)) (written_text (arg_at q.args q.name_at))
      (written_text (arg_at q.args q.version_at)) q rows

pub update_rows-keyed :
    (q : UpdateQuery) (f : Row → Row) (group name version : Text) (rows : List Row)
    → Writes q f group name version
    → update_rows q rows ≡ update_keyed group name version q rows
update_rows-keyed q f group name version rows w =
    ap
      (λ a.
        update_keyed (written_text a) (written_text (arg_at q.args q.name_at))
          (written_text (arg_at q.args q.version_at)) q rows)
      w.at_group
    ∙ ap
        (λ a.
          update_keyed group (written_text a) (written_text (arg_at q.args q.version_at)) q rows)
        w.at_name
    ∙ ap (λ a. update_keyed group name (written_text a) q rows) w.at_version

abbrev pub stored_rows : Backend
stored_rows =
    backend {Rows = List Row} (λ q rows. ok rows) update_rows
      (λ group name version rows. (
        ok (length (keep (has_key group name version) rows)),
        keep (λ p. not (has_key group name version p)) rows,
      ))

pub rewritten-same :
    (f g : Row → Row) (group name version : Text) (rows : List Row)
    → ((p : Row) → f p ≡ g p)
    → rewritten group name version f rows ≡ rewritten group name version g rows
rewritten-same f g group name version [] h = refl
rewritten-same f g group name version (p ∷ rows) h =
    rw (h p, rewritten-same f g group name version rows h) refl

unfoldable pub stored_table : WrittenTable stored_rows
stored_table = record {
  table = λ rows. rows;
  updates = λ q f group name version rows p w one.
      let keyed = update_rows-keyed q f group name version rows w in
      let answer : update_keyed group name version q rows
          ≡ (ok (assigned q p), rewritten group name version (assigned q) rows) =
        rw (one, update_keyed) refl in
      let whole = keyed ∙ answer in
      (
        ap (λ r. r.0) whole ∙ rw (w.assigns p, assigned) refl,
        ap (λ r. r.1) whole
            ∙ rewritten-same (assigned q) f group name version rows
                (λ r. rw (w.assigns r, assigned) refl),
      );
  updates_none = λ q f group name version rows w empty.
      update_rows-keyed q f group name version rows w ∙ rw (empty, update_keyed) refl;
  deletes = λ group name version rows n h. (cc (h), refl);
}
