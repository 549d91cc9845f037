-- ===== src/Audit/Partitions/Names.antt =====
-- A partition's name read back.
use easyp_plugin_server.Common.{
  ℕ, none, if◌then◌else◌, ◌+◌, ◌-◌, ◌*◌, ◌/◌, ◌%◌, ◌<◌, ◌≤◌, ◌≡◌, refl, ◌∙◌, ap, true, ◌&&◌, [],
  ◌∷◌, some, arith, lt→ltb, leb,
}
use easyp_plugin_server.Audit.Partitions.{
  format_year, digit, is_digit, value, partition_name, parse_digits, parse_partition_month,
}

digit-is_digit : (n : ℕ) → n < 10 → is_digit (digit n) ≡ true
digit-is_digit n h = ground arith

value-digit : (n : ℕ) → value (digit n) ≡ n
value-digit n = omega arith

within : (n : ℕ) → 1 ≤ n → n ≤ 12 → (leb 1 n && leb n 12) ≡ true
within n a b = ground arith

year_digits :
    (y : ℕ) → y < 10000 → y / 1000 * 1000 + y / 100 % 10 * 100 + y / 10 % 10 * 10 + y % 10 ≡ y
year_digits y h = omega arith

parse_digits_lem :
    (a b c d e f : ℕ)
    → a < 10
    → b < 10
    → c < 10
    → d < 10
    → e < 10
    → f < 10
    → 1 ≤ e * 10 + f
    → e * 10 + f ≤ 12
    → parse_digits (digit a ∷ digit b ∷ digit c ∷ digit d ∷ b'm' ∷ digit e ∷ digit f ∷ [])
      ≡ some ((a * 1000 + b * 100 + c * 10 + d) * 12 + (e * 10 + f - 1))
unfolding parse_digits
parse_digits_lem a b c d e f ha hb hc hd he hf lo hi =
    rw
      (
        digit-is_digit a ha,
        digit-is_digit b hb,
        digit-is_digit c hc,
        digit-is_digit d hd,
        digit-is_digit e he,
        digit-is_digit f hf,
        value-digit a,
        value-digit b,
        value-digit c,
        value-digit d,
        value-digit e,
        value-digit f,
      )
      (in_range (within (e * 10 + f) lo hi))
  where
    in_range :
        (leb 1 (e * 10 + f) && leb (e * 10 + f) 12) ≡ true
        → (if leb 1 (e * 10 + f) && leb (e * 10 + f) 12
            then some ((a * 1000 + b * 100 + c * 10 + d) * 12 + (e * 10 + f - 1))
            else none)
          ≡ some ((a * 1000 + b * 100 + c * 10 + d) * 12 + (e * 10 + f - 1))
    in_range q = rw q refl

-- parsePartitionMonth is the inverse of partitionName up to the year 9999.
pub parse_partition_month-partition_name :
    (month : ℕ) → month < 120000 → parse_partition_month (partition_name month) ≡ some month
unfolding parse_partition_month partition_name format_year
parse_partition_month-partition_name month h = rw (lt→ltb (month / 12) 10000 (omega arith)) (
    parse_digits_lem (month / 12 / 1000) (month / 12 / 100 % 10) (month / 12 / 10 % 10)
      (month / 12 % 10) ((month % 12 + 1) / 10) ((month % 12 + 1) % 10) (omega arith) (omega arith)
      (omega arith) (omega arith) (omega arith) (omega arith) (omega arith) (omega arith)
    ∙ ap some (omega (arith, year_digits (month / 12))))
