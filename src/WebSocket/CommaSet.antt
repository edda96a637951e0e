-- ===== src/WebSocket/CommaSet.antt =====
-- `parseCommaStrSet` of websocket.go, which splits the value of a header.
pub mod Tokens
use gotalk.Common.{
  Bytes, Option, List, ℕ, if◌then◌else◌, take, ◌∷◌, length, some, ◌+◌, ◌-◌, [], drop, none, ◌==◌,
  slice,
}

-- The loop's state: the start and the end of a token, and the tokens so far, the newest first, which
-- the code keeps as a set.
pub record Scan : Type 0 where
  pub start : Option ℕ
  pub end : Option ℕ
  pub found : List Bytes

-- The case of a comma: the token ends there, unless it ended at a space.
unfoldable pub add_token : Bytes → ℕ → ℕ → Option ℕ → List Bytes → List Bytes
add_token s i a none found = slice s a i ∷ found
add_token s i a (some e) found = slice s a e ∷ found

unfoldable pub scan_byte : Bytes → ℕ → ℕ → Scan → Scan
scan_byte s i b state = elim state.start [
  | none ↦ if b == b' ' then state else record state { start = some i }
  | some a ↦
      if b == b' '
      then record state { end = some i }
      else if b == b','
      then record { start = none; end = none; found = add_token s i a state.end state.found }
      else state
]

-- The loop over the runes of the rest. A byte inside a rune is neither a space nor a comma, and
-- behind the first byte of its rune it changes nothing, so the model goes by bytes.
unfoldable pub scan : Bytes → ℕ → Bytes → Scan → Scan
scan s i [] state = state
scan s i (b ∷ rest) state = scan s (i + 1) rest (scan_byte s i b state)

unfoldable pub last_token : Bytes → Scan → List Bytes
last_token s state = elim state.start [
  | none ↦ state.found
  | some a ↦ slice s a (length s) ∷ state.found
]

unfoldable pub parse_comma_str_set : Bytes → List Bytes
parse_comma_str_set s =
    if length s == 0
    then []
    else last_token s (scan s 0 s (record { start = some 0; end = none; found = [] }))
