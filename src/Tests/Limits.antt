-- ===== src/Tests/Limits.antt =====
-- Per-client limits: two requests of one client under a limit of two.
use easyp_plugin_server.RateLimit.Limiter.{TokenBucket, new_rate_limiter}
use easyp_plugin_server.RateLimit.Limiter.PerClient.{
  answers_to, bucket_answers, times_of, per_client,
}
use easyp_plugin_server.Common.{
  ltb, ◌-◌, Text, ℕ, ◌≡◌, refl, List, [], ◌∷◌, none, codes, pos, lookup, insert, text_eq,
}
use easyp_plugin_server.Core.Service.{allows}
use easyp_plugin_server.RateLimit.Concurrency.{held, new_concurrency_limiter, flying, admit}
use easyp_plugin_server.RateLimit.Concurrency.Bound.{
  System, Reach, start, next, admitted, in_flight_exact,
}

abbrev client : List ℕ
client = codes "10.0.0.7"

abbrev idle : System
idle = record { limiter = new_concurrency_limiter (pos 2) none; running = [] }

abbrev one : System
one = record { limiter = (admit client idle.limiter).1; running = held client ∷ [] }

abbrev two : System
two = record { limiter = (admit client one.limiter).1; running = held client ∷ held client ∷ [] }

two-Reach : Reach (pos 2) none two
unfolding admit new_concurrency_limiter flying lookup insert text_eq allows
two-Reach =
    next (next start (admitted idle client (held client) refl))
      (admitted one client (held client) refl)

in_flight_exact_example : flying client two.limiter.in_flight ≡ 2
unfolding text_eq
in_flight_exact_example = (in_flight_exact two-Reach client).0

-- A bucket of two tokens that are never given back.
abbrev two_tokens : TokenBucket
two_tokens = record { State = ℕ; fresh = 2; allow = λ now n. (ltb 0 n, n - 1) }

abbrev mixed : List (ℕ × Text)
mixed = (1, client) ∷ (2, codes "10.0.0.8") ∷ (3, client) ∷ (4, client) ∷ []

per_client_example :
    answers_to two_tokens client mixed (new_rate_limiter two_tokens 600 none)
    ≡ bucket_answers two_tokens (times_of two_tokens client mixed) 2
unfolding text_eq allows
per_client_example = per_client two_tokens 600 none client mixed refl refl
