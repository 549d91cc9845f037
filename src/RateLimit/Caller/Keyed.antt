-- ===== src/RateLimit/Caller/Keyed.antt =====
-- internal/grpchelper/server.go and internal/ratelimiter/extractor.go: the key that a limiter counts
-- a caller under.
use easyp_plugin_server.Common.{
  ℕ, ◌≡◌, ◌≢◌, refl, sym, ap, ◌∙◌, [], ◌∷◌, ◌++◌, none, some, Bool, true, false, Text, Lacks,
  text_eq-ne, text_eq_refl, append_assoc, if◌then◌else◌, arith,
}
use easyp_plugin_server.RateLimit.Caller.{
  CallContext, caller_ip_unknown, has_byte, cut_last, cut_first, split_host_port, host_of,
  extract_caller_ip, with_caller_ip, peer_ip_extractor,
}

has_byte-Lacks : (b : ℕ) (s : Text) → Lacks b s → has_byte b s ≡ false
unfolding has_byte
has_byte-Lacks b [] h = refl
has_byte-Lacks b (c ∷ s) h = ground (arith, h.0, has_byte-Lacks b s h.1)

cut_last-Lacks : (b : ℕ) (s : Text) → Lacks b s → cut_last b s ≡ none
unfolding cut_last
cut_last-Lacks b [] h = refl
cut_last-Lacks b (c ∷ s) h = rw (cut_last-Lacks b s h.1) (ground (arith, h.0))

cut_last-append : (b : ℕ) (s t : Text) → Lacks b t → cut_last b (s ++ b ∷ t) ≡ some (s, t)
unfolding cut_last
cut_last-append b [] t h = rw (cut_last-Lacks b t h) (ground arith)
cut_last-append b (c ∷ s) t h = rw (cut_last-append b s t h) refl

cut_first-append : (b : ℕ) (s t : Text) → Lacks b s → cut_first b (s ++ b ∷ t) ≡ some (s, t)
unfolding cut_first
cut_first-append b [] t h = ground arith
cut_first-append b (c ∷ s) t h = rw (cut_first-append b s t h.1) (ground (arith, h.0))

-- A text without the bytes that have a meaning in an address.
abbrev pub IsName : Text → Type 0
IsName s = Lacks b':' s × Lacks b'[' s × Lacks b']' s

split_host_port-plain :
    (host port : Text)
    → IsName host
    → IsName port
    → split_host_port (host ++ b':' ∷ port) ≡ some host
unfolding split_host_port
split_host_port-plain [] port h p =
    rw
      (
        cut_last-append b':' [] port p.0,
        has_byte-Lacks b'[' port p.1,
        has_byte-Lacks b']' port p.2,
        split_host_port,
      )
      (ground arith)
split_host_port-plain (c ∷ host) port h p =
    rw
      (
        cut_last-append b':' (c ∷ host) port p.0,
        has_byte-Lacks b':' (c ∷ host) h.0,
        has_byte-Lacks b'[' (c ∷ host) h.1,
        has_byte-Lacks b']' (c ∷ host) h.2,
        has_byte-Lacks b'[' port p.1,
        has_byte-Lacks b']' port p.2,
        split_host_port,
      )
      (ground (arith, h.1.0))

-- How a caller reaches the server, and the address that it has then.
pub data Called (ctx : CallContext) : Text → Type 0 where
  -- the library has found a valid address, which is neither empty nor the word for an unknown one
  forwarded : (ip : Text) → ctx.real_ip ≡ some ip → ip ≢ [] → ip ≢ caller_ip_unknown → Called ctx ip
  -- a peer host:port
  direct :
      (host port : Text)
      → IsName host
      → IsName port
      → ctx.real_ip ≡ none
      → ctx.peer ≡ some (host ++ b':' ∷ port)
      → Called ctx host
  -- a peer [host]:port, where the host may have colons
  bracketed :
      (host port : Text)
      → Lacks b'[' host × Lacks b']' host
      → IsName port
      → ctx.real_ip ≡ none
      → ctx.peer ≡ some (b'[' ∷ (host ++ b']' ∷ b':' ∷ port))
      → Called ctx host
  -- a peer without a port
  portless :
      (addr : Text) → Lacks b':' addr → ctx.real_ip ≡ none → ctx.peer ≡ some addr → Called ctx addr
  nobody : ctx.real_ip ≡ none → ctx.peer ≡ none → Called ctx []

split_host_port-bracketed :
    (host port : Text)
    → Lacks b'[' host × Lacks b']' host
    → IsName port
    → split_host_port (b'[' ∷ (host ++ b']' ∷ b':' ∷ port)) ≡ some host
unfolding split_host_port
split_host_port-bracketed host port h p =
    let same = append_assoc (b'[' ∷ host) (b']' ∷ []) (b':' ∷ port) in
    let last : cut_last b':' (b'[' ∷ (host ++ b']' ∷ b':' ∷ port))
        ≡ some ((b'[' ∷ host) ++ b']' ∷ [], port) =
      ap (cut_last b':') (sym same) ∙ cut_last-append b':' ((b'[' ∷ host) ++ b']' ∷ []) port p.0 in
    rw
      (
        last,
        cut_first-append b']' host (b':' ∷ port) h.1,
        text_eq_refl (b':' ∷ port),
        has_byte-Lacks b'[' host h.0,
        has_byte-Lacks b'[' port p.1,
        has_byte-Lacks b']' port p.2,
        split_host_port,
      )
      refl

split_host_port-portless : (addr : Text) → Lacks b':' addr → split_host_port addr ≡ none
unfolding split_host_port
split_host_port-portless [] h = refl
split_host_port-portless (c ∷ addr) h = rw (cut_last-Lacks b':' (c ∷ addr) h, split_host_port) refl

either_way {ℓ} : {A : Type ℓ} (b : Bool) (a : A) → (if b then a else a) ≡ a
either_way true a = refl
either_way false a = refl

from_peer :
    (ctx : CallContext) (addr : Text)
    → ctx.real_ip ≡ none
    → ctx.peer ≡ some addr
    → peer_ip_extractor (with_caller_ip ctx) ≡ host_of addr
unfolding peer_ip_extractor with_caller_ip extract_caller_ip
from_peer ctx addr r p = rw (r, p) (either_way _ (host_of addr))

-- Behind the interceptor that establishes the caller's address, a limiter counts a caller under the
-- forwarded address if there is a valid one, and otherwise under the host of the peer's address,
-- without the port and the brackets; a peer without a port under its whole address, and one
-- without an address under the empty key.
pub peer_ip_extractor-with_caller_ip :
    (ctx : CallContext) (ip : Text) → Called ctx ip → peer_ip_extractor (with_caller_ip ctx) ≡ ip
unfolding peer_ip_extractor with_caller_ip extract_caller_ip host_of
peer_ip_extractor-with_caller_ip ctx ip (forwarded ip' real there known) =
    rw (real, text_eq-ne ip [] there, text_eq-ne ip caller_ip_unknown known) refl
peer_ip_extractor-with_caller_ip ctx ip (direct host port h p real peer) =
    from_peer ctx (ip ++ b':' ∷ port) real peer
    ∙ rw (split_host_port-plain ip port h p, host_of) refl
peer_ip_extractor-with_caller_ip ctx ip (bracketed host port h p real peer) =
    from_peer ctx _ real peer ∙ rw (split_host_port-bracketed ip port h p, host_of) refl
peer_ip_extractor-with_caller_ip ctx ip (portless addr h real peer) =
    from_peer ctx ip real peer ∙ rw (split_host_port-portless ip h, host_of) refl
peer_ip_extractor-with_caller_ip ctx ip (nobody real peer) = rw (real, peer) refl
