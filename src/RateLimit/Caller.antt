-- ===== src/RateLimit/Caller.antt =====
-- internal/grpchelper/server.go and internal/ratelimiter: who is calling, and the settings that a
-- limiter falls back to.
pub mod Keyed
use easyp_plugin_server.Common.{
  ℕ, zero, suc, ◌+◌, List, [], ◌∷◌, ◌++◌, Option, none, some, Bool, true, false, not, ◌&&◌, ◌||◌,
  ◌==◌, Text, codes, text_eq, ℤ, pos, not_positive, if◌then◌else◌,
}

-- Whether a text has a byte.
unfoldable pub has_byte : ℕ → Text → Bool
has_byte b [] = false
has_byte b (c ∷ s) = c == b || has_byte b s

-- The text in front of the last of a byte, and behind it.
unfoldable pub cut_last : ℕ → Text → Option (Text × Text)
unfolding has_byte
cut_last b [] = none
cut_last b (c ∷ s) = elim (cut_last b s) [
  | some (front, back) ↦ some (c ∷ front, back)
  | none ↦ if c == b then some ([], s) else none
]

-- The text in front of the first of a byte, and behind it.
unfoldable pub cut_first : ℕ → Text → Option (Text × Text)
cut_first b [] = none
cut_first b (c ∷ s) =
    let rest = cut_first b s in
    if c == b
    then some ([], s)
    else elim rest [ none ↦ none | some (front, back) ↦ some (c ∷ front, back) ]

-- net.SplitHostPort, the host; none is an error. A host in brackets ends right before the last
-- colon, one without brackets has no colon, and neither host nor port holds a bracket more.
unfoldable pub split_host_port : Text → Option Text
unfolding cut_last cut_first has_byte text_eq
split_host_port [] = none
split_host_port (c ∷ s) = elim (cut_last b':' (c ∷ s)) [
  | none ↦ none
  | some (front, port) ↦
      if c == b'['
      then elim (cut_first b']' s) [
        | none ↦ none
        | some (host, behind) ↦
            if text_eq behind (b':' ∷ port)
              && not (has_byte b'[' host || has_byte b'[' port || has_byte b']' port)
            then some host
            else none
      ]
      else if has_byte b':' front
          || has_byte b'[' front
          || has_byte b']' front
          || has_byte b'[' port
          || has_byte b']' port
      then none
      else some front
]

-- What a context says of the caller: the valid address that the realip library found, the text of
-- the peer's address, and the address that an interceptor has put there, empty where there is none.
pub record CallContext : Type 0 where
  pub real_ip : Option Text
  pub peer : Option Text
  pub caller_ip : Text

abbrev pub caller_ip_unknown : Text
caller_ip_unknown = codes "unknown"

-- The end of extractCallerIP and of PeerIPExtractor.
unfoldable pub host_of : Text → Text
unfolding split_host_port
host_of addr = elim (split_host_port addr) [ none ↦ addr | some host ↦ host ]

-- extractCallerIP
unfoldable pub extract_caller_ip : CallContext → Text
unfolding host_of
extract_caller_ip ctx = elim (ctx.real_ip) [
  | some ip ↦ ip
  | none ↦ elim (ctx.peer) [ none ↦ caller_ip_unknown | some addr ↦ host_of addr ]
]

-- callerIPUnaryInterceptor and callerIPStreamInterceptor, the context handed on.
unfoldable pub with_caller_ip : CallContext → CallContext
unfolding extract_caller_ip
with_caller_ip ctx = record ctx { caller_ip = extract_caller_ip ctx }

-- PeerIPExtractor
unfoldable pub peer_ip_extractor : CallContext → Text
unfolding host_of text_eq
peer_ip_extractor ctx =
    if not (text_eq ctx.caller_ip []) && not (text_eq ctx.caller_ip caller_ip_unknown)
    then ctx.caller_ip
    else elim (ctx.peer) [ none ↦ [] | some addr ↦ host_of addr ]

-- Config of the rate limiter; the rate is a float64, of which only the sign is asked.
pub record LimiterConfig {ℓ} (Rate : Type ℓ) : Type ℓ where
  pub requests_per_second : Rate
  pub burst : ℤ
  pub cleanup_interval : ℤ

-- DefaultConfig; times are in nanoseconds.
abbrev pub default_cleanup_interval : ℤ
default_cleanup_interval = pos 600000000000

abbrev pub default_burst : ℤ
default_burst = pos 20

-- setDefault: the settings and the names of those that were replaced.
unfoldable pub set_default_limits {ℓ} :
    {Rate : Type ℓ}
    → (unusable : Rate → Bool) → (ten : Rate) → LimiterConfig Rate
    → LimiterConfig Rate × List Text
set_default_limits unusable ten c = (
  record {
    requests_per_second = if unusable c.requests_per_second then ten else c.requests_per_second;
    burst = if not_positive c.burst then default_burst else c.burst;
    cleanup_interval =
        if not_positive c.cleanup_interval then default_cleanup_interval else c.cleanup_interval;
  },
  (if not_positive c.cleanup_interval then codes "cleanup_interval" ∷ [] else [])
      ++ ((if unusable c.requests_per_second then codes "requests_per_second" ∷ [] else [])
          ++ (if not_positive c.burst then codes "burst" ∷ [] else [])),
)
