-- ===== src/Audit/Partitions.antt =====
-- internal/adapters/audit/partitions.go: the monthly partitions of the audit log. A month is a
-- number, twelve times the year plus the months before it in that year: the source only ever
-- keeps the first instants of months, which it compares and shifts by whole months.
pub mod Names
pub mod Retention
pub mod Upcoming
use easyp_plugin_server.Common.{
  ℕ, zero, suc, ◌+◌, ◌-◌, ◌*◌, ◌/◌, ◌%◌, ◌≡◌, Bool, true, false, not, ◌&&◌, List, [], ◌∷◌, ◌++◌,
  map, Option, none, some, Text, codes, length, keep, ltb, leb, ◌==◌, if◌then◌else◌, ℤ, pos, negsuc,
  not_positive, magnitude, Result, ok, err, member,
}

pub record PartitionConfig : Type 0 where
  pub retention_months : ℤ
  pub pre_create_months : ℤ
  pub interval : ℤ
  pub operation_timeout : ℤ

-- Nanoseconds: six hours, and thirty seconds.
unfoldable pub set_default : PartitionConfig → PartitionConfig
set_default c = record {
  retention_months = elim c.retention_months [ pos n ↦ pos n | negsuc n ↦ pos 12 ];
  pre_create_months = elim c.pre_create_months [ pos n ↦ pos n | negsuc n ↦ pos 3 ];
  interval = if not_positive c.interval then pos 21600000000000 else c.interval;
  operation_timeout =
      if not_positive c.operation_timeout then pos 30000000000 else c.operation_timeout;
}

abbrev pub prefix : Text
prefix = codes "audit_log_y"

abbrev pub digit : ℕ → ℕ
digit n = b'0' + n

-- The decimal digits in front of `acc`; `fuel` bounds their number.
unfoldable pub decimal : ℕ → ℕ → Text → Text
decimal zero n acc = acc
decimal (suc fuel) n acc =
    let rest = decimal fuel (n / 10) (digit (n % 10) ∷ acc) in
    if ltb n 10 then digit n ∷ acc else rest

-- %04d and %02d; a month of a year is never longer than two digits.
unfoldable pub format_year : ℕ → Text
unfolding decimal
format_year y =
    if ltb y 10000
    then digit (y / 1000) ∷ digit (y / 100 % 10) ∷ digit (y / 10 % 10) ∷ digit (y % 10) ∷ []
    else decimal y y []

unfoldable pub partition_name : ℕ → Text
unfolding format_year
partition_name month =
    let m = month % 12 + 1 in
    prefix ++ (format_year (month / 12) ++ b'm' ∷ digit (m / 10) ∷ digit (m % 10) ∷ [])

-- \d
abbrev pub is_digit : ℕ → Bool
is_digit c = leb b'0' c && leb c b'9'

-- strconv.Atoi on digits.
abbrev pub value : ℕ → ℕ
value c = c - b'0'

unfoldable pub strip_prefix : Text → Text → Option Text
strip_prefix [] s = some s
strip_prefix (c ∷ p) [] = none
strip_prefix (c ∷ p) (d ∷ s) = if c == d then strip_prefix p s else none

-- (\d{4})m(\d{2})$ and the range of the month.
unfoldable pub parse_digits : Text → Option ℕ
parse_digits (a ∷ b ∷ c ∷ d ∷ m ∷ e ∷ f ∷ []) =
    let year = value a * 1000 + value b * 100 + value c * 10 + value d in
    let month = value e * 10 + value f in
    if is_digit a
      && is_digit b
      && is_digit c
      && is_digit d
      && m == b'm'
      && is_digit e
      && is_digit f
      && leb 1 month
      && leb month 12
    then some (year * 12 + (month - 1))
    else none
parse_digits _ = none

unfoldable pub parse_partition_month : Text → Option ℕ
unfolding strip_prefix parse_digits
parse_partition_month name = elim (strip_prefix prefix name) [
  | none ↦ none
  | some s ↦ parse_digits s
]

-- The months from `start` on, `left` behind the first.
unfoldable pub months_from : ℕ → ℕ → List ℕ
months_from start zero = start ∷ []
months_from start (suc left) = start ∷ months_from (suc start) left

-- `ahead` is negative for none at all.
unfoldable pub upcoming_months : ℕ → ℤ → List ℕ
unfolding months_from
upcoming_months now (pos ahead) = months_from now ahead
upcoming_months now (negsuc n) = []

-- A cutoff before the year 0 is as good as its beginning: no partition name is older.
unfoldable pub retention_cutoff : ℕ → ℕ → ℕ
retention_cutoff now months = now - months

abbrev pub is_monthly : Text → Bool
is_monthly name = elim (parse_partition_month name) [ none ↦ false | some m ↦ true ]

abbrev pub is_expired : ℕ → Text → Bool
is_expired cutoff name = elim (parse_partition_month name) [ none ↦ false | some m ↦ ltb m cutoff ]

unfoldable pub monthly_partitions : List Text → List Text
monthly_partitions names = keep is_monthly names

unfoldable pub expired_partitions : List Text → ℕ → List Text
expired_partitions names cutoff = keep (is_expired cutoff) names

-- The database inside one transaction.
pub record Database : Type 1 where
  pub State : Type 0
  pub Failure : Type 0
  pub acquire_lock : State → Result Failure Bool
  pub bound_drop_locks : State → Result Failure State
  pub list_partitions : State → Result Failure (List Text)
  pub create_partition : (name : Text) (lo hi : ℕ) → State → Result Failure State
  pub drop_partition : Text → State → Result Failure State

pub data MaintainError (F : Type 0) : Type 0 where
  database : F → MaintainError F
  retention_would_empty_table : MaintainError F

module _ (D : Database) where
  open D use {State, Failure}

  -- The loop of EnsurePartitions.
  unfoldable pub create_all : List ℕ → State → Result Failure (ℕ × State)
  unfolding partition_name
  create_all [] s = ok (0, s)
  create_all (month ∷ months) s =
      elim (D.create_partition (partition_name month) month (suc month) s) [
        | err e ↦ err e
        | ok s' ↦ elim (create_all months s') [
          | err e ↦ err e
          | ok (created, t) ↦ ok (suc created, t)
        ]
      ]

  -- A transaction that fails leaves the state that it began with.
  unfoldable pub ensure_partitions : List ℕ → State → Result Failure ℕ × State
  unfolding create_all
  ensure_partitions months s = elim (D.acquire_lock s) [
    | err e ↦ (err e, s)
    | ok locked ↦
        let done = create_all months s in
        if locked
        then elim done [ err e ↦ (err e, s) | ok (created, t) ↦ (ok created, t) ]
        else (ok 0, s)
  ]

  unfoldable pub drop_partitions : List Text → State → Result Failure State
  drop_partitions [] s = ok s
  drop_partitions (name ∷ names) s = elim (D.drop_partition name s) [
    | err e ↦ err e
    | ok s' ↦ drop_partitions names s'
  ]

  -- The transaction behind the lock, from the names on.
  unfoldable pub drop_among :
      List Text → ℕ → State → Result (MaintainError Failure) (List Text × State)
  unfolding expired_partitions monthly_partitions drop_partitions
  drop_among names cutoff s =
      let expired = expired_partitions names cutoff in
      if ltb 0 (length expired) && length expired == length (monthly_partitions names)
      then err retention_would_empty_table
      else elim (drop_partitions expired s) [ err e ↦ err (database e) | ok t ↦ ok (expired, t) ]

  unfoldable pub drop_expired_partitions :
      ℕ → State → Result (MaintainError Failure) (List Text) × State
  unfolding drop_among
  drop_expired_partitions cutoff s = elim (D.acquire_lock s) [
    | err e ↦ (err (database e), s)
    | ok false ↦ (ok [], s)
    | ok true ↦ elim (D.bound_drop_locks s) [
      | err e ↦ (err (database e), s)
      | ok s' ↦ elim (D.list_partitions s') [
        | err e ↦ (err (database e), s)
        | ok names ↦ elim (drop_among names cutoff s') [
          | err e ↦ (err e, s)
          | ok (dropped, t) ↦ (ok dropped, t)
        ]
      ]
    ]
  ]

  -- One maintenance pass: `created` and `dropped` are what the two counters gain.
  unfoldable pub maintain :
      PartitionConfig → ℕ → State → Result (MaintainError Failure) (ℕ × ℕ) × State
  unfolding upcoming_months ensure_partitions retention_cutoff drop_expired_partitions
  maintain cfg now s =
      let (created, s') = ensure_partitions (upcoming_months now cfg.pre_create_months) s in
      elim created [
        | err e ↦ (err (database e), s')
        | ok n ↦
            if not_positive cfg.retention_months
            then (ok (n, 0), s')
            else (let (dropped, t) =
                  drop_expired_partitions (retention_cutoff now (magnitude cfg.retention_months))
                    s' in
                elim dropped [ err e ↦ (err e, t) | ok names ↦ (ok (n, length names), t) ])
      ]
