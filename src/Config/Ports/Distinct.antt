-- ===== src/Config/Ports/Distinct.antt =====
-- What accepted ports are: numbers that can be listened on, and no two alike.
use easyp_plugin_server.Common.{
  ℕ, ◌≤◌, ◌<◌, ◌≡◌, refl, sym, ◌∙◌, false, List, [], ◌∷◌, some, Text, arith, Bool-cases,
  Option-cases, trim_space, Result-cases, inl, inr, ok, err, ◌==◌, if◌then◌else◌,
}
use easyp_plugin_server.Config.Ports.{parse_uint16, parse_port, is_seen, validate_ports_from}

parse_uint16_lt : (s : Text) (p : ℕ) → parse_uint16 s ≡ some p → p < 65536
unfolding parse_uint16
parse_uint16_lt s p h = ground (arith, h)

parse_port_bounds :
    (name value : Text) (p : ℕ) → parse_port name value ≡ ok p → (1 ≤ p) × (p ≤ 65535)
unfolding parse_port
parse_port_bounds name value p h = elim (Option-cases (parse_uint16 (trim_space value))) [
  | inl e ↦
      let refused : parse_port name value ≡ err name = rw (e, parse_port) refl in
      absurd (cc (refused, h))
  | inr (q, e) ↦
      let parsed : parse_port name value ≡ (if q == 0 then err name else ok q) =
        rw (e, parse_port) refl in
      let small = parse_uint16_lt (trim_space value) q e in
      elim (Bool-cases (q == 0)) [
        | inl zero ↦
            let refused : parse_port name value ≡ err name = parsed ∙ rw zero refl in
            absurd (cc (refused, h))
        | inr positive ↦
            let whole : parse_port name value ≡ ok q = parsed ∙ rw positive refl in
            let same : q ≡ p = cc (whole, h) in
            (ground (arith, same, positive), ground (arith, same, small))
      ]
]

-- Each setting is the number of a port, and of none that is seen before it.
abbrev pub Listens : List ℕ → List (Text × Text) → Type 0
Listens seen [] = Unit
Listens seen ((name, value) ∷ ports) =
    (p : ℕ) × (parse_port name value ≡ ok p)
    × (1 ≤ p)
    × (p ≤ 65535)
    × (is_seen p seen ≡ false)
    × Listens (p ∷ seen) ports

pub validate_ports_from-Listens :
    (seen : List ℕ) (ports : List (Text × Text))
    → validate_ports_from seen ports ≡ ok tt
    → Listens seen ports
unfolding validate_ports_from
validate_ports_from-Listens seen [] h = tt
validate_ports_from-Listens seen ((name, value) ∷ ports) h =
    elim (Result-cases (parse_port name value)) [
      | inr (e, failed) ↦
          let refused : validate_ports_from seen ((name, value) ∷ ports) ≡ err e =
            rw (failed, validate_ports_from) refl in
          absurd (cc (refused, h))
      | inl (p, parsed) ↦
          let (low, high) = parse_port_bounds name value p parsed in
          elim (Bool-cases (is_seen p seen)) [
            | inl clash ↦
                let refused : validate_ports_from seen ((name, value) ∷ ports) ≡ err name =
                  rw (parsed, clash, validate_ports_from) refl in
                absurd (cc (refused, h))
            | inr fresh ↦
                let same : validate_ports_from seen ((name, value) ∷ ports)
                    ≡ validate_ports_from (p ∷ seen) ports =
                  rw (parsed, fresh, validate_ports_from) refl in
                (
                  p,
                  parsed,
                  low,
                  high,
                  fresh,
                  validate_ports_from-Listens (p ∷ seen) ports (sym same ∙ h),
                )
          ]
    ]
