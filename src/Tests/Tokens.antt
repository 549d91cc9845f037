-- ===== src/Tests/Tokens.antt =====
-- A codec of page tokens: lengths in front of the fields, between two letters.
use easyp_plugin_server.Common.{
  ◌≡◌, refl, sym, ap, ◌∙◌, false, [], ◌∷◌, ◌++◌, Option, none, some, Text, take, drop, length,
  every, is_space, trim_left, trim_right, trim_space, arith,
}
use easyp_plugin_server.Core.Domain.{PluginKey}
use easyp_plugin_server.Api.Plugins.{Codec}
use easyp_plugin_server.Api.Plugins.Tokens.{CodecLaws}

abbrev pub read_key : Text → Option PluginKey
read_key [] = none
read_key (a ∷ []) = none
read_key (a ∷ b ∷ t) =
    some (record { group = take a t; name = take b (drop a t); version = drop b (drop a t) })

abbrev pub but_last : Text → Text
but_last [] = []
but_last (c ∷ []) = []
but_last (c ∷ d ∷ s) = c ∷ but_last (d ∷ s)

abbrev pub read_marked : Text → Option Text
read_marked [] = none
read_marked (c ∷ s) = some (but_last s)

abbrev pub codec : Codec
codec = record {
  marshal = λ k. some (length k.group ∷ length k.name ∷ (k.group ++ (k.name ++ k.version)));
  unmarshal = read_key;
  encode_to_string = λ raw. b'x' ∷ raw ++ b'x' ∷ [];
  decode_string = read_marked;
}

take_front : (s t : Text) → take (length s) (s ++ t) ≡ s
take_front [] t = refl
take_front (c ∷ s) t = ap (λ l. c ∷ l) (take_front s t)

drop_front : (s t : Text) → drop (length s) (s ++ t) ≡ t
drop_front [] t = refl
drop_front (c ∷ s) t = drop_front s t

but_last_lem : (s : Text) → but_last (s ++ b'x' ∷ []) ≡ s
but_last_lem [] = refl
but_last_lem (c ∷ []) = refl
but_last_lem (c ∷ d ∷ s) = ap (λ l. c ∷ l) (but_last_lem (d ∷ s))

not_blank : (s : Text) → every is_space (s ++ b'x' ∷ []) ≡ false
unfolding every is_space
not_blank [] = refl
not_blank (c ∷ s) = ground (arith, not_blank s)

keeps_end : (s : Text) → trim_right (s ++ b'x' ∷ []) ≡ s ++ b'x' ∷ []
unfolding trim_right every is_space
keeps_end [] = refl
keeps_end (c ∷ s) = rw (not_blank (c ∷ s), trim_right) (ap (λ l. c ∷ l) (keeps_end s))

read_back :
    (k : PluginKey) (raw : Text)
    → some (length k.group ∷ length k.name ∷ (k.group ++ (k.name ++ k.version))) ≡ some raw
    → read_key raw ≡ some k
read_back k raw h =
    let whole : length k.group ∷ length k.name ∷ (k.group ++ (k.name ++ k.version)) ≡ raw =
      cc (h) in
    ap read_key (sym whole)
    ∙ rw
        (
          take_front k.group (k.name ++ k.version),
          drop_front k.group (k.name ++ k.version),
          take_front k.name k.version,
          drop_front k.name k.version,
        )
        refl

pub codec_laws : CodecLaws codec
unfolding trim_space trim_left is_space
codec_laws = record {
  marshals =
      λ k. (length k.group ∷ length k.name ∷ (k.group ++ (k.name ++ k.version)), refl, λ e. cc (e));
  unmarshals = read_back;
  decodes = λ raw. ap some (but_last_lem raw);
  not_empty = λ raw full e. cc (e);
  no_space = λ raw. keeps_end (b'x' ∷ raw);
}
