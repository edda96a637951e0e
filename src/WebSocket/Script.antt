-- ===== src/WebSocket/Script.antt =====
-- Which body of the script a request gets.
use gotalk.WebSocket.CommaSet.{parse_comma_str_set}
use gotalk.WebSocket.CommaSet.Tokens.{
  added, further, IsToken, AreTokens, parse_comma_str_set-tokens,
}
use gotalk.Common.{
  Bytes, List, ℕ, ◌∷◌, [], ◌≡◌, ◌||◌, Bool, true, false, bytes_eq, ◌++◌, ◌∙◌, refl, ◌<◌, length, ap,
  if◌then◌else◌, Option, clash, inl, some, ◌⊎◌, Bool-cases, bytes_eq_refl, bytes_eq-eq, inr, sym,
}
use gotalk.WebSocket.Setup.Caching.{header_value}
use gotalk.WebSocket.{
  content_length_key, content_encoding_key, found_script, HttpReply, has_key, serve_http,
  serve_script, JsLib, HttpRequest, has_suffix, gotalk_js_suffix, is_not_modified, script_reply,
  gzip_text, upgraded, not_modified,
}

-- The tokens as a list, in order
abbrev pub tokens : Bytes → List (ℕ × Bytes) → List Bytes
tokens t [] = t ∷ []
tokens t ((n, u) ∷ ts) = t ∷ tokens u ts

has_key-added :
    (key t : Bytes) (ts : List (ℕ × Bytes)) (found : List Bytes)
    → has_key key (added ts (t ∷ found)) ≡ (has_key key (tokens t ts) || has_key key found)
unfolding has_key
has_key-added key t [] found = or_swap (bytes_eq t key) (has_key key found)
  where
    or_swap : (a b : Bool) → (a || b) ≡ ((a || false) || b)
    or_swap true b = refl
    or_swap false b = refl
has_key-added key t ((n, u) ∷ ts) found =
    has_key-added key u ts (t ∷ found)
    ∙ or_swap (has_key key (tokens u ts)) (bytes_eq t key) (has_key key found)
  where
    or_swap : (a b c : Bool) → (a || (b || c)) ≡ ((b || a) || c)
    or_swap true true c = refl
    or_swap true false c = refl
    or_swap false true c = refl
    or_swap false false c = refl

-- A text is among others.
abbrev pub IsAmong : Bytes → List Bytes → Type 0
IsAmong key [] = ⊥
IsAmong key (k ∷ ks) = (k ≡ key) ⊎ IsAmong key ks

has_key-true : (key : Bytes) (ks : List Bytes) → has_key key ks ≡ true → IsAmong key ks
unfolding has_key
has_key-true key [] e = absurd (clash e refl)
has_key-true key (k ∷ ks) e = elim (Bool-cases (bytes_eq k key)) [
  | inl same ↦ inl (bytes_eq-eq k key same)
  | inr other ↦ inr (has_key-true key ks (sym (ap (λ b. b || has_key key ks) other) ∙ e))
]

has_key-among : (key : Bytes) (ks : List Bytes) → IsAmong key ks → has_key key ks ≡ true
unfolding has_key
has_key-among key [] h = absurd h
has_key-among key (k ∷ ks) (inl same) =
    ap (λ b. b || has_key key ks) (ap (λ v. bytes_eq v key) same ∙ bytes_eq_refl key)
has_key-among key (k ∷ ks) (inr h) =
    ap (λ b. bytes_eq k key || b) (has_key-among key ks h) ∙ or-true (bytes_eq k key)
  where
    or-true : (b : Bool) → (b || true) ≡ true
    or-true true = refl
    or-true false = refl

-- A reply with a body, its length and its encoding, and of another key with what the script's header has.
abbrev pub Sends : JsLib → Bytes → HttpReply → Bytes → Bytes → Option (List Bytes) → Type 0
Sends js key reply body size encoding =
    (header : List (Bytes × List Bytes)) × (reply ≡ found_script header body)
    × (header_value content_length_key header ≡ some (size ∷ []))
    × (header_value content_encoding_key header ≡ encoding)
    × (header_value key header ≡ header_value key js.header)

script_reply-zipped :
    (js : JsLib) (key : Bytes)
    → bytes_eq content_length_key key ≡ false
    → bytes_eq content_encoding_key key ≡ false
    → Sends js key (script_reply js true) js.gzip_body js.gzip_length (some (gzip_text ∷ []))
unfolding script_reply header_value bytes_eq
script_reply-zipped js key len enc = (_, refl, refl, refl, rw (enc, len) refl)

script_reply-plain :
    (js : JsLib) (key : Bytes)
    → bytes_eq content_length_key key ≡ false
    → Sends js key
        (script_reply js false)
        js.body
        js.body_length
        (header_value content_encoding_key js.header)
unfolding script_reply header_value bytes_eq
script_reply-plain js key len = (_, refl, refl, refl, rw len refl)

serve_http-reply :
    (js : JsLib) (r : HttpRequest) (t : Bytes) (ts : List (ℕ × Bytes))
    → has_suffix r.path gotalk_js_suffix ≡ true
    → is_not_modified js r.if_none_match ≡ false
    → r.accept_encoding ≡ t ++ further ts
    → 0 < length t
    → IsToken t
    → AreTokens ts
    → serve_http js r ≡ script_reply js (has_key gzip_text (tokens t ts))
unfolding serve_http serve_script
serve_http-reply js r t ts suffix modified accepts some_byte ht h =
    ap (λ b. if b then serve_script js r else upgraded) suffix
    ∙ ap
        (λ b.
          if b
          then not_modified
          else script_reply js (has_key gzip_text (parse_comma_str_set r.accept_encoding)))
        modified
    ∙ ap (λ s. script_reply js (has_key gzip_text (parse_comma_str_set s))) accepts
    ∙ ap (λ ks. script_reply js (has_key gzip_text ks))
        (parse_comma_str_set-tokens t ts some_byte ht h)
    ∙ ap (script_reply js)
        (has_key-added gzip_text t ts [] ∙ or-false (has_key gzip_text (tokens t ts)))
  where
    or-false : (b : Bool) → (b || has_key gzip_text []) ≡ b
    or-false true = refl
    or-false false = unfold has_key in refl

-- For a path that ends in `/gotalk.js`, a first `If-None-Match` that is missing or is not the
-- script's ETag, and an `Accept-Encoding` made of tokens that are not empty and have neither a
-- space nor a comma, joined by a comma and any number of spaces behind it: where `gzip` is among
-- the tokens `ServeHTTP` answers with the compressed script, its length as `Content-Length` and
-- `gzip` as `Content-Encoding`, and where it is not, with the plain script, its length and no
-- encoding but what the script's own header has; and for any other key the reply has what the
-- script's own header has.
pub serve_http-script :
    (js : JsLib) (r : HttpRequest) (t : Bytes) (ts : List (ℕ × Bytes)) (key : Bytes)
    → has_suffix r.path gotalk_js_suffix ≡ true
    → is_not_modified js r.if_none_match ≡ false
    → r.accept_encoding ≡ t ++ further ts
    → 0 < length t
    → IsToken t
    → AreTokens ts
    → bytes_eq content_length_key key ≡ false
    → bytes_eq content_encoding_key key ≡ false
    → (IsAmong gzip_text (tokens t ts)
        × Sends js key (serve_http js r) js.gzip_body js.gzip_length (some (gzip_text ∷ [])))
      ⊎ ((¬ IsAmong gzip_text (tokens t ts))
          × Sends js key
              (serve_http js r)
              js.body
              js.body_length
              (header_value content_encoding_key js.header))
serve_http-script js r t ts key suffix modified accepts some_byte ht h len enc =
    let reply = serve_http-reply js r t ts suffix modified accepts some_byte ht h in
    elim (Bool-cases (has_key gzip_text (tokens t ts))) [
      | inl zip ↦
          let (header, same, size, encoding, others) = script_reply-zipped js key len enc in
          inl (
            has_key-true gzip_text (tokens t ts) zip,
            (header, reply ∙ ap (script_reply js) zip ∙ same, size, encoding, others),
          )
      | inr plain ↦
          let (header, same, size, encoding, others) = script_reply-plain js key len in
          inr (
            (λ among. clash (has_key-among gzip_text (tokens t ts) among) plain),
            (header, reply ∙ ap (script_reply js) plain ∙ same, size, encoding, others),
          )
    ]
