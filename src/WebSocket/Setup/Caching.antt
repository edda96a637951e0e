-- ===== src/WebSocket/Setup/Caching.antt =====
-- What a browser gets of the script, and what it gets when it asks whether its copy is still good.
use gotalk.Common.{
  Bytes, List, ℕ, Option, ◌≡◌, Error, none, some, bytes_eq, length, ok, ◌∷◌, Bool, [],
  if◌then◌else◌, ok-injective, true, false, panic, ap, refl, ◌∙◌, sym, bytes_eq_refl,
}
use gotalk.WebSocket.{
  JsLib, HttpRequest, HttpReply, serve_http, serve_script, script_reply, found_script, not_modified,
  is_not_modified, has_suffix, gotalk_js_suffix, has_key, gzip_text, content_length_key, upgraded,
}
use gotalk.WebSocket.CommaSet.{parse_comma_str_set}
use gotalk.WebSocket.Setup.{init_js_lib, js_lib_unless, gzip_error, quoted, js_header, etag_key}

-- The first values of a key
unfoldable pub header_value : Bytes → List (Bytes × List Bytes) → Option (List Bytes)
header_value key [] = none
header_value key ((k, v) ∷ hs) = if bytes_eq k key then some v else header_value key hs

-- A reply with a body whose length it tells, and this ETag.
abbrev pub Gives : HttpReply → Bytes → Bytes → (ℕ → Bytes) → Type 0
Gives reply etag body decimal =
    (header : List (Bytes × List Bytes)) × (reply ≡ found_script header body)
    × (header_value content_length_key header ≡ some (decimal (length body) ∷ []))
    × (header_value etag_key header ≡ some (etag ∷ []))

module _ (hash lib : Bytes) (decimal : ℕ → Bytes)
    (gzip : Bytes → Bytes × Option Error × Option Error) where
  abbrev made : JsLib
  made = record {
    etag = quoted hash;
    header = js_header (quoted hash);
    body = lib;
    body_length = decimal (length lib);
    gzip_body = (gzip lib).0;
    gzip_length = decimal (length (gzip lib).0);
  }

  init_js_lib-only : (js : JsLib) → init_js_lib hash lib decimal gzip ≡ ok js → made ≡ js
  unfolding init_js_lib js_lib_unless
  init_js_lib-only js e = written (gzip_error (gzip lib).1 (gzip lib).2) e
    where
      written : (o : Option Error) → js_lib_unless o made ≡ ok js → made ≡ js
      written none e = ok-injective e
      written (some x) e = absurd (panic-ok e)
        where
          panic-ok : panic ≡ ok js → ⊥
          panic-ok e = cc

  script_reply-Gives :
      (zip : Bool)
      → Gives (script_reply made zip) (quoted hash) (if zip then (gzip lib).0 else lib) decimal
  unfolding script_reply header_value js_header bytes_eq
  script_reply-Gives true = (_, refl, refl, refl)
  script_reply-Gives false = (_, refl, refl, refl)

  -- Where `init` made the embedded script, for a path that ends in `/gotalk.js` and a first
  -- `If-None-Match` that is missing or is not the script's ETag, `ServeHTTP` answers with the
  -- script, or with its compressed form where `Accept-Encoding` has gzip, with a `Content-Length`
  -- that is the length of the body that is sent and with the quoted hash as `ETag`; and for the
  -- same request with that ETag as `If-None-Match` it answers that nothing was modified.
  pub serve_http-revalidates :
      (js : JsLib) (r : HttpRequest)
      → init_js_lib hash lib decimal gzip ≡ ok js
      → has_suffix r.path gotalk_js_suffix ≡ true
      → is_not_modified js r.if_none_match ≡ false
      → Gives
          (serve_http js r)
          (quoted hash)
          (if has_key gzip_text (parse_comma_str_set r.accept_encoding) then (gzip lib).0 else lib)
          decimal
        × (serve_http js (record r { if_none_match = quoted hash ∷ [] }) ≡ not_modified)
  unfolding serve_http serve_script is_not_modified
  serve_http-revalidates js r e suffix modified =
      let same = init_js_lib-only js e in
      let zip : Bool = has_key gzip_text (parse_comma_str_set r.accept_encoding) in
      let (header, reply, len, etag) = script_reply-Gives zip in
      (
        (
          header,
          ap (λ b. if b then serve_script js r else upgraded) suffix
              ∙ ap (λ b. if b then not_modified else script_reply js zip) modified
              ∙ ap (λ j. script_reply j zip) (sym same)
              ∙ reply,
          len,
          etag,
        ),
        ap
              (λ b.
                if b
                then serve_script js (record r { if_none_match = quoted hash ∷ [] })
                else upgraded)
              suffix
            ∙ ap
                (λ (j : JsLib).
                  if bytes_eq (quoted hash) j.etag then not_modified else script_reply js zip)
                (sym same)
            ∙ ap (λ b. if b then not_modified else script_reply js zip)
                (bytes_eq_refl (quoted hash)),
      )
