-- ===== src/WebSocket/CommaSet/Tokens.antt =====
-- The tokens of a list that is written with commas, and spaces behind these.
use gotalk.WebSocket.CommaSet.{last_token, scan, Scan, scan_byte, add_token, parse_comma_str_set}
use gotalk.Common.{
  Bytes, List, ℕ, ◌∷◌, ◌≡◌, ◌≢◌, [], length, none, replicate, some, ◌++◌, ◌<◌, ◌+◌, ap, arith,
  slice, suc, take, ◌∙◌, zero, ◌-◌, drop-append, eqb-eq_false, take-append, length-append, refl,
  append-nil, append_assoc, length-replicate, sym, Bool, if◌then◌else◌,
}

-- A byte that is neither a space nor a comma
abbrev pub IsTokenByte : ℕ → Type 0
IsTokenByte b = (b ≢ b' ') × (b ≢ b',')

abbrev pub IsToken : Bytes → Type 0
IsToken [] = Unit {0}
IsToken (b ∷ t) = IsTokenByte b × IsToken t

-- The further tokens, each behind a comma and a number of spaces
abbrev pub further : List (ℕ × Bytes) → Bytes
further [] = []
further ((n, t) ∷ ts) = b',' ∷ (replicate n b' ' ++ (t ++ further ts))

abbrev pub AreTokens : List (ℕ × Bytes) → Type 0
AreTokens [] = Unit {0}
AreTokens ((n, t) ∷ ts) = (0 < length t) × (IsToken t × AreTokens ts)

abbrev pub added : List (ℕ × Bytes) → List Bytes → List Bytes
added [] found = found
added ((n, t) ∷ ts) found = added ts (t ∷ found)

in_token : (a : ℕ) (found : List Bytes) → Scan
in_token a found = record { start = some a; end = none; found = found }

between : List Bytes → Scan
between found = record { start = none; end = none; found = found }

slice-middle :
    (p t rest : Bytes) (a b : ℕ)
    → a ≡ length p
    → b ≡ length p + length t
    → slice (p ++ (t ++ rest)) a b ≡ t
slice-middle p t rest a b ea eb =
    ap (take (b - a)) (drop-append a p (t ++ rest) ea)
    ∙ take-append (b - a) t rest (omega (arith, ea, eb))

scan_byte-token :
    (s : Bytes) (i a b : ℕ) (found : List Bytes)
    → IsTokenByte b
    → scan_byte s i b (in_token a found) ≡ in_token a found
unfolding scan_byte in_token
scan_byte-token s i a b found (space, comma) =
    rw (eqb-eq_false b b' ' space, eqb-eq_false b b',' comma) refl

scan_byte-start :
    (s : Bytes) (i b : ℕ) (found : List Bytes)
    → IsTokenByte b
    → scan_byte s i b (between found) ≡ in_token i found
unfolding scan_byte in_token between
scan_byte-start s i b found (space, comma) = rw (eqb-eq_false b b' ' space) refl

scan_byte-comma :
    (s : Bytes) (i a : ℕ) (found : List Bytes)
    → scan_byte s i b',' (in_token a found) ≡ between (slice s a i ∷ found)
unfolding scan_byte in_token between add_token
scan_byte-comma s i a found = refl

scan-token :
    (s t rest : Bytes) (i a : ℕ) (found : List Bytes)
    → IsToken t
    → scan s i (t ++ rest) (in_token a found) ≡ scan s (i + length t) rest (in_token a found)
unfolding scan scan_byte in_token
scan-token s [] rest i a found h = ap (λ j. scan s j rest (in_token a found)) (the_index i)
  where
    the_index : (i : ℕ) → i ≡ i + 0
    the_index i = omega arith
scan-token s (b ∷ t) rest i a found (hb, h) =
    ap (scan s (i + 1) (t ++ rest)) (scan_byte-token s i a b found hb)
    ∙ scan-token s t rest (i + 1) a found h
    ∙ ap (λ j. scan s j rest (in_token a found)) (the_index (length t))
  where
    the_index : (k : ℕ) → i + 1 + k ≡ i + suc k
    the_index k = omega arith

scan-spaces :
    (s rest : Bytes) (n i : ℕ) (found : List Bytes)
    → scan s i (replicate n b' ' ++ rest) (between found) ≡ scan s (i + n) rest (between found)
unfolding scan scan_byte between
scan-spaces s rest zero i found = ap (λ j. scan s j rest (between found)) (the_index i)
  where
    the_index : (i : ℕ) → i ≡ i + 0
    the_index i = omega arith
scan-spaces s rest (suc n) i found =
    scan-spaces s rest n (i + 1) found ∙ ap (λ j. scan s j rest (between found)) (the_index n)
  where
    the_index : (k : ℕ) → i + 1 + k ≡ i + suc k
    the_index k = omega arith

scan-start :
    (s t rest : Bytes) (i : ℕ) (found : List Bytes)
    → 0 < length t
    → IsToken t
    → scan s i (t ++ rest) (between found) ≡ scan s (i + length t) rest (in_token i found)
unfolding scan scan_byte between in_token
scan-start s [] rest i found some_byte h = absurd (omega arith)
scan-start s (b ∷ t) rest i found some_byte (hb, h) =
    ap (scan s (i + 1) (t ++ rest)) (scan_byte-start s i b found hb)
    ∙ scan-token s t rest (i + 1) i found h
    ∙ ap (λ j. scan s j rest (in_token i found)) (the_index (length t))
  where
    the_index : (k : ℕ) → i + 1 + k ≡ i + suc k
    the_index k = omega arith

scan-further :
    (s : Bytes) (ts : List (ℕ × Bytes)) (p t : Bytes) (a i : ℕ) (found : List Bytes)
    → s ≡ p ++ (t ++ further ts)
    → a ≡ length p
    → i ≡ length p + length t
    → AreTokens ts
    → last_token s (scan s i (further ts) (in_token a found)) ≡ added ts (t ∷ found)
unfolding last_token scan in_token
scan-further s [] p t a i found es ea ei h =
    ap (λ x. x ∷ found)
      (ap (λ v. slice v a (length s)) es
        ∙ slice-middle p t [] a (length s) ea (
            ap length es
            ∙ length-append p (t ++ [])
            ∙ ap (λ v. length p + length v) (append-nil t)))
scan-further s ((n, u) ∷ ts) p t a i found es ea ei (some_byte, (hu, h)) =
    let p' : Bytes = p ++ (t ++ (b',' ∷ replicate n b' ')) in
    let found' : List Bytes = slice s a i ∷ found in
    let j : ℕ = i + 1 + n in
    let es' : s ≡ p' ++ (u ++ further ts) = es ∙ simp append_assoc in
    let len' : length p' ≡ j =
      length-append p (t ++ (b',' ∷ replicate n b' '))
      ∙ ap (λ k. length p + k) (length-append t (b',' ∷ replicate n b' '))
      ∙ omega (arith, ei, length-replicate {A = ℕ} n b' ') in
    ap (λ st. last_token s (scan s (i + 1) (replicate n b' ' ++ (u ++ further ts)) st))
      (scan_byte-comma s i a found)
    ∙ ap (last_token s) (scan-spaces s (u ++ further ts) n (i + 1) found')
    ∙ ap (last_token s) (scan-start s u (further ts) j found' some_byte hu)
    ∙ scan-further s ts p' u j (j + length u) found' es' (sym len')
        (ap (λ k. k + length u) (sym len')) h
    ∙ ap (λ v. added ts (u ∷ v ∷ found))
        (ap (λ w. slice w a i) es ∙ slice-middle p t (further ((n, u) ∷ ts)) a i ea ei)

-- For a value made of tokens that are not empty and have neither a space nor a comma, joined by a
-- comma and any number of spaces behind it, `parseCommaStrSet` gives exactly these tokens, the last
-- first.
pub parse_comma_str_set-tokens :
    (t : Bytes) (ts : List (ℕ × Bytes))
    → 0 < length t
    → IsToken t
    → AreTokens ts
    → parse_comma_str_set (t ++ further ts) ≡ added ts (t ∷ [])
unfolding parse_comma_str_set in_token
parse_comma_str_set-tokens [] ts some_byte ht h = absurd (omega arith)
parse_comma_str_set-tokens (b ∷ t) ts some_byte ht h =
    let s : Bytes = (b ∷ t) ++ further ts in
    ap (λ (e : Bool). if e then [] else last_token s (scan s 0 s (in_token 0 [])))
      (eqb-eq_false (length s) 0 (λ e. omega (arith, e)))
    ∙ ap (last_token s) (scan-token s (b ∷ t) (further ts) 0 0 [] ht)
    ∙ scan-further s ts [] (b ∷ t) 0 (0 + length (b ∷ t)) [] refl refl refl h
