-- ===== src/Protocol/Reader.antt =====
-- `io.Reader` as the results of its `Read` calls to come, and `readn`.
pub mod Exact
pub mod Conserve
use gotalk.Common.{
  ℕ, zero, suc, ◌-◌, Bool, true, false, List, [], ◌∷◌, ◌++◌, Bytes, length, take, drop, leb, ◌==◌,
  if◌then◌else◌, Option, none, some, Error, eof,
}

-- What one `Read` gives a caller who asks for all of it: the bytes, and an error with them or none.
pub record Chunk : Type 0 where
  pub bytes : Bytes
  pub failure : Option Error

-- A caller who asks for less gets that much, and the rest stays. Behind the last chunk is the end.
abbrev pub Reader : Type 0
Reader = List Chunk

-- `s.Read(b)` with room for `k` bytes
unfoldable pub read : Reader → ℕ → Bytes × Option Error × Reader
read [] k = ([], some eof, [])
read (c ∷ s) k =
    if leb (length c.bytes) k
    then (c.bytes, c.failure, s)
    else (take k c.bytes, none, record c { bytes = drop k c.bytes } ∷ s)

-- The loop of `readn` with `k` bytes to go: each round takes one `read`, whose cases stand inline so
-- that the recursion is on the chunks.
unfoldable pub readn : Reader → ℕ → Bytes × Option Error × Reader
readn [] k = if k == 0 then ([], none, []) else ([], some eof, [])
readn (c ∷ s) k =
    let (more, e, s') = readn s (k - length c.bytes) in
    if k == 0
    then ([], none, c ∷ s)
    else if leb (length c.bytes) k
    then elim c.failure [ some e' ↦ (c.bytes, some e', s) | none ↦ (c.bytes ++ more, e, s') ]
    else (take k c.bytes, none, record c { bytes = drop k c.bytes } ∷ s)
