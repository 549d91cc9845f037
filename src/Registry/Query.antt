-- ===== src/Registry/Query.antt =====
-- internal/adapters/registry/registry.go: the rows of the plugins table, and the queries that the
-- registry builds over them. A query is kept as the clauses of its text, each with the numbers of
-- its placeholders, and the list of the arguments that are bound to them.
pub mod Selected
use easyp_plugin_server.Common.{
  ℕ, zero, suc, ◌+◌, Bool, true, false, not, ◌&&◌, List, [], ◌∷◌, ◌++◌, Option, none, some, Text,
  text_eq, member, keep, take, ℤ, pos, not_positive, magnitude, if◌then◌else◌,
}
use mathlib.Core.Option
use easyp_plugin_server.Core.Domain.{PluginInfo, PluginFilter, PluginKey, PluginPage}

-- The struct plugin: a row of the table.
pub record Row : Type 0 where
  pub id : Text
  pub group_name : Text
  pub name : Text
  pub version : Text
  pub config : Text
  pub tags : List Text
  pub created_at : ℕ

unfoldable pub info : Row → PluginInfo
info p = record {
  id = p.id;
  group = p.group_name;
  name = p.name;
  version = p.version;
  tags = p.tags;
  created_at = p.created_at;
}

abbrev pub row_key : Row → PluginKey
row_key p = record { group = p.group_name; name = p.name; version = p.version }

pub data Column : Type 0 where
  column_group column_name column_version : Column

pub data Arg : Type 0 where
  text_arg : Text → Arg
  texts_arg : List Text → Arg
  size_arg : ℤ → Arg

-- column = $n, tags @> $n, and (group_name, name, version) > ($g, $n, $v)
pub data Clause : Type 0 where
  column_is : Column → ℕ → Clause
  tags_contain : ℕ → Clause
  row_beyond : ℕ → ℕ → ℕ → Clause

pub data Order : Type 0 where
  unordered by_key by_version_desc : Order

pub data Limit : Type 0 where
  no_limit limit_one : Limit
  limit_arg : ℕ → Limit

pub record Query : Type 0 where
  pub clauses : List Clause
  pub order : Order
  pub limit : Limit
  pub args : List Arg

-- The query text so far, the arguments, and argID.
pub record Building : Type 0 where
  pub clauses : List Clause
  pub args : List Arg
  pub arg_id : ℕ

abbrev pub empty_query : Building
empty_query = record { clauses = []; args = []; arg_id = 1 }

unfoldable pub where_column : Column → Text → Building → Building
unfolding text_eq
where_column column value b = if text_eq value [] then b else record {
  clauses = b.clauses ++ column_is column b.arg_id ∷ [];
  args = b.args ++ text_arg value ∷ [];
  arg_id = b.arg_id + 1;
}

unfoldable pub non_empty_tags : List Text → List Text
unfolding text_eq
non_empty_tags tags = keep (λ t. not (text_eq t [])) tags

unfoldable pub where_tags : List Text → Building → Building
unfolding non_empty_tags
where_tags tags b = elim (non_empty_tags tags) [
  | [] ↦ b
  | t ∷ ts ↦ record {
    clauses = b.clauses ++ tags_contain b.arg_id ∷ [];
    args = b.args ++ texts_arg (t ∷ ts) ∷ [];
    arg_id = b.arg_id + 1;
  }
]

unfoldable pub where_after : Option PluginKey → Building → Building
where_after none b = b
where_after (some k) b =
    let group_arg = b.arg_id in
    let name_arg = group_arg + 1 in
    let version_arg = name_arg + 1 in
    record {
      clauses = b.clauses ++ row_beyond group_arg name_arg version_arg ∷ [];
      args = b.args ++ text_arg k.group ∷ text_arg k.name ∷ text_arg k.version ∷ [];
      arg_id = version_arg + 1;
    }

-- All clauses of List, before the limit.
unfoldable pub listing : PluginFilter → Option PluginKey → Building
unfolding where_column where_tags where_after
listing filter after =
    let grouped = where_column column_group filter.group empty_query in
    let named = where_column column_name filter.name grouped in
    let versioned = where_column column_version filter.version named in
    where_after after (where_tags filter.tags versioned)

unfoldable pub limit_to : ℤ → Building → Query
limit_to size b =
    if not_positive size
    then record { clauses = b.clauses; order = by_key; limit = no_limit; args = b.args }
    else record {
      clauses = b.clauses;
      order = by_key;
      limit = limit_arg b.arg_id;
      args = b.args ++ size_arg size ∷ [];
    }

-- The query of List.
unfoldable pub list_query : PluginFilter → PluginPage → Query
unfolding listing limit_to
list_query filter page = limit_to page.size (listing filter page.after)

-- The query of Get.
unfoldable pub get_query : Text → Text → Text → Query
get_query group name version = record {
  clauses = column_is column_group 1 ∷ column_is column_name 2 ∷ column_is column_version 3 ∷ [];
  order = unordered;
  limit = no_limit;
  args = text_arg group ∷ text_arg name ∷ text_arg version ∷ [];
}

unfoldable pub latest_query : Text → Text → Query
latest_query group name = record {
  clauses = column_is column_group 1 ∷ column_is column_name 2 ∷ [];
  order = by_version_desc;
  limit = limit_one;
  args = text_arg group ∷ text_arg name ∷ [];
}

-- What clauses say of a row: PostgreSQL's reading of them.
abbrev pub arg_at : List Arg → ℕ → Option Arg
arg_at [] n = none
arg_at (a ∷ args) zero = none
arg_at (a ∷ args) (suc zero) = some a
arg_at (a ∷ args) (suc (suc n)) = arg_at args (suc n)

abbrev pub as_text : Option Arg → Option Text
as_text (some (text_arg t)) = some t
as_text (some (texts_arg ts)) = none
as_text (some (size_arg z)) = none
as_text none = none

abbrev pub as_texts : Option Arg → Option (List Text)
as_texts (some (text_arg t)) = none
as_texts (some (texts_arg ts)) = some ts
as_texts (some (size_arg z)) = none
as_texts none = none

abbrev pub as_size : Option Arg → Option ℤ
as_size (some (text_arg t)) = none
as_size (some (texts_arg ts)) = none
as_size (some (size_arg z)) = some z
as_size none = none

abbrev pub column : Column → Row → Text
column column_group p = p.group_name
column column_name p = p.name
column column_version p = p.version

unfoldable pub has_all : List Text → List Text → Bool
unfolding member
has_all tags [] = true
has_all tags (t ∷ ts) = member t tags && has_all tags ts

abbrev pub key_beyond :
    (PluginKey → PluginKey → Bool) → Row → Option Text → Option Text → Option Text → Option Bool
key_beyond key_lt p (some g) (some n) (some v) =
    some (key_lt (record { group = g; name = n; version = v }) (row_key p))
key_beyond key_lt p (some g) (some n) none = none
key_beyond key_lt p (some g) none v = none
key_beyond key_lt p none n v = none

-- `none` is a clause whose placeholders are not bound to arguments of its type.
abbrev pub holds : (PluginKey → PluginKey → Bool) → List Arg → Row → Clause → Option Bool
holds key_lt args p (column_is c n) = Option.map (text_eq (column c p)) (as_text (arg_at args n))
holds key_lt args p (tags_contain n) = Option.map (has_all p.tags) (as_texts (arg_at args n))
holds key_lt args p (row_beyond g n v) =
    key_beyond key_lt p (as_text (arg_at args g)) (as_text (arg_at args n))
      (as_text (arg_at args v))

abbrev pub both : Option Bool → Option Bool → Option Bool
both (some a) (some b) = some (a && b)
both (some a) none = none
both none b = none

abbrev pub satisfies : (PluginKey → PluginKey → Bool) → List Arg → Row → List Clause → Option Bool
satisfies key_lt args p [] = some true
satisfies key_lt args p (c ∷ cs) = both (holds key_lt args p c) (satisfies key_lt args p cs)

abbrev pub limit_of : List Arg → Limit → List Row → Option (List Row)
limit_of args no_limit rows = some rows
limit_of args limit_one rows = some (take 1 rows)
limit_of args (limit_arg n) rows =
    Option.map (λ z. take (magnitude z) rows) (as_size (arg_at args n))
