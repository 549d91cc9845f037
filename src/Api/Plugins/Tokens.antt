-- ===== src/Api/Plugins/Tokens.antt =====
-- Page tokens: each is read back as the key that it was made of, so that a client which passes them
-- on walks through the whole listing.
use easyp_plugin_server.Common.{
  ℕ, zero, suc, ◌≡◌, ◌≢◌, refl, sym, ap, ◌∙◌, false, List, [], ◌++◌, Option, none, some,
  Option-cases, inl, inr, Text, text_eq, text_eq→eq, trim_space, Result, ok, err, length,
  Bool-cases, if◌then◌else◌,
}
use mathlib.Core.Option
use easyp_plugin_server.Core.Domain.{PluginInfo, PluginKey, PluginList, Context, Registry}
use easyp_plugin_server.Core.Errors.{Error}
use easyp_plugin_server.Core.Service.{Core, World, list_plugins}
use easyp_plugin_server.Core.Service.Paging.{KeyOrder, ListsInOrder, walk, walk_all}
use easyp_plugin_server.Api.Plugins.{
  Codec, HandlerError, encode_page_token, decode_page_token, PluginsRequest, PluginsResponse,
  request_filter, list_response, handle_list,
}

-- What the tokens rely on: a key of text is written and read back, and base64 writes text without
-- white space, which is empty for the empty document alone.
pub record CodecLaws (codec : Codec) : Type 0 where
  pub marshals : (key : PluginKey) → (raw : Text) × (codec.marshal key ≡ some raw) × (raw ≢ [])
  pub unmarshals :
      (key : PluginKey) (raw : Text) → codec.marshal key ≡ some raw → codec.unmarshal raw ≡ some key
  pub decodes : (raw : Text) → codec.decode_string (codec.encode_to_string raw) ≡ some raw
  pub not_empty : (raw : Text) → raw ≢ [] → codec.encode_to_string raw ≢ []
  pub no_space : (raw : Text) → trim_space (codec.encode_to_string raw) ≡ codec.encode_to_string raw

module _ (codec : Codec) (laws : CodecLaws codec) where
  token_of :
      (key : PluginKey)
      → (raw : Text) × (codec.marshal key ≡ some raw)
        × (encode_page_token codec (some key) ≡ codec.encode_to_string raw)
        × (text_eq (codec.encode_to_string raw) [] ≡ false)
  unfolding encode_page_token
  token_of key =
      let (raw, written, full) = laws.marshals key in
      (
        raw,
        written,
        rw (written, encode_page_token) refl,
        elim (Bool-cases (text_eq (codec.encode_to_string raw) [])) [
          | inl e ↦ absurd (laws.not_empty raw full (text_eq→eq (codec.encode_to_string raw) [] e))
          | inr e ↦ e
        ],
      )

  -- A token is read back as its key, and it is not the empty one, which asks for the first page.
  pub decode_page_token-encode_page_token :
      (key : PluginKey)
      → (decode_page_token codec (trim_space (encode_page_token codec (some key))) ≡ ok (some key))
        × (text_eq (encode_page_token codec (some key)) [] ≡ false)
  unfolding decode_page_token
  decode_page_token-encode_page_token key =
      let (raw, written, token, full) = token_of key in
      let read : decode_page_token codec (codec.encode_to_string raw) ≡ ok (some key) =
        rw (full, laws.decodes raw, laws.unmarshals key raw written, decode_page_token) refl in
      (
        ap (λ t. decode_page_token codec (trim_space t)) token
            ∙ ap (decode_page_token codec) (laws.no_space raw)
            ∙ read,
        ap (λ t. text_eq t []) token ∙ full,
      )

  module _ (R : Registry) (c : Core) (ctx : Context) (req : PluginsRequest) where
    -- What a client does with a page: it is done, or it goes on with the token.
    abbrev follow :
        (Text → World R → Option (List PluginInfo))
        → Result HandlerError PluginsResponse × World R
        → Option (List PluginInfo)
    follow next (err e, w) = none
    follow next (ok page, w) =
        if text_eq page.next_page_token []
        then some page.plugins
        else Option.map (λ more. page.plugins ++ more) (next page.next_page_token w)

    -- A client that asks for pages until it gets no token.
    unfoldable pub walk_tokens : ℕ → Text → World R → Option (List PluginInfo)
    walk_tokens zero token w = none
    walk_tokens (suc fuel) token w =
        follow (λ t v. walk_tokens fuel t v)
          (handle_list R c ctx codec (record req { page_token = token }) w)

    abbrev by_key : ℕ → Option PluginKey → World R → Option (List PluginInfo)
    by_key fuel after w = walk R c ctx (request_filter req) req.page_size fuel after w

    abbrev follow_key :
        (Option PluginKey → World R → Option (List PluginInfo))
        → Result Error PluginList × World R
        → Option (List PluginInfo)
    follow_key next p = elim p.0 [
      | err e ↦ none
      | ok l ↦ elim l.next [
        | none ↦ some l.plugins
        | some k ↦ Option.map (λ rest. l.plugins ++ rest) (next (some k) p.1)
      ]
    ]

    abbrev page_at : Option PluginKey → World R → Result Error PluginList × World R
    page_at after w =
        list_plugins R c ctx (request_filter req) (record { size = req.page_size; after = after }) w

    by_key-suc :
        (fuel : ℕ) (after : Option PluginKey) (w : World R)
        → by_key (suc fuel) after w ≡ follow_key (λ k v. by_key fuel k v) (page_at after w)
    unfolding walk
    by_key-suc fuel after w = refl

    handled :
        (token : Text) (after : Option PluginKey) (w : World R)
        → decode_page_token codec (trim_space token) ≡ ok after
        → handle_list R c ctx codec (record req { page_token = token }) w
          ≡ (list_response codec (page_at after w).0, (page_at after w).1)
    unfolding handle_list request_filter
    handled token after w h = rw (h, handle_list) refl

    -- Going on with the token is going on with the key.
    follow_lem :
        (next : Text → World R → Option (List PluginInfo))
        (next_key : Option PluginKey → World R → Option (List PluginInfo))
        (r : Result Error PluginList) (w : World R)
        → ((key : PluginKey) (v : World R)
            → next (encode_page_token codec (some key)) v ≡ next_key (some key) v)
        → follow next (list_response codec r, w) ≡ follow_key next_key (r, w)
    unfolding list_response
    follow_lem next next_key (err e) w same = refl
    follow_lem next next_key (ok l) w same = elim (Option-cases l.next) [
      | inl last ↦ rw last (unfold encode_page_token in unfold text_eq in refl)
      | inr (key, more) ↦
          let full = (decode_page_token-encode_page_token key).1 in rw (more, full, same key w) refl
    ]

    -- Tokens and keys lead through the same pages.
    walk_tokens-walk :
        (fuel : ℕ) (token : Text) (after : Option PluginKey) (w : World R)
        → decode_page_token codec (trim_space token) ≡ ok after
        → walk_tokens fuel token w ≡ by_key fuel after w
    unfolding walk_tokens walk
    walk_tokens-walk zero token after w h = refl
    walk_tokens-walk (suc fuel) token after w h =
        ap (follow (λ t v. walk_tokens fuel t v)) (handled token after w h)
        ∙ follow_lem (λ t v. walk_tokens fuel t v) (λ k v. by_key fuel k v) (page_at after w).0
            (page_at after w).1
            (λ key v.
              walk_tokens-walk fuel (encode_page_token codec (some key)) (some key) v
                (decode_page_token-encode_page_token key).0)
        ∙ sym (by_key-suc fuel after w)

    -- A client that passes the tokens of the listing on, from the empty one, sees every row that its
    -- filter describes exactly once and in order, whatever page size it asks for: as many requests as
    -- there are rows, and one more, suffice. The registry lists the rows in order, and tokens are read
    -- back as the codec's laws say.
    pub walk_tokens-rows :
        (O : KeyOrder) (rows : List PluginInfo) (w : World R)
        → ListsInOrder R O (request_filter req) w.registry rows
        → walk_tokens (suc (length rows)) [] w ≡ some rows
    unfolding trim_space
    walk_tokens-rows O rows w lists =
        walk_tokens-walk (suc (length rows)) [] none w (unfold decode_page_token in refl)
        ∙ walk_all R c ctx (request_filter req) req.page_size O rows w lists
