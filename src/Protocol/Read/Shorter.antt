-- ===== src/Protocol/Read/Shorter.antt =====
-- How much of the stream `ReadMsg` takes, whatever the bytes are and whatever fails.
use gotalk.Protocol.Reader.Conserve.{length-readn, readn_full}
use gotalk.Protocol.Fixnum.{parse_uint}
use gotalk.Protocol.Reader.Exact.{stream}
use gotalk.Protocol.{Msg, msg_type_retry_res}
use gotalk.Common.{
  refl, Bytes, Option, ℕ, Ensures, Error, length, ◌+◌, ◌≡◌, ◌≤◌, Ensures->>=, Ensures-weaken, none,
  arith, ◌-◌, ◌⊎◌, Ensures-check, get_or, inl, slice, some, Ensures-any, err, leb, Ensures-if, inr,
  ok, ◌&&◌, ltb, ◌==◌,
}
use gotalk.Protocol.Reader.{Reader}
use gotalk.Protocol.Read.{
  fill, fill_all, header_error, read_fields, read_msg, read_name, read_wait, read_part, Part,
  read_head, has_name,
}

-- The bytes that a reader will still give.
abbrev pub left : Reader → ℕ
left r = length (stream r)

fill-takes :
    (b : Bytes) (i j : ℕ) (r : Reader)
    → Ensures
        (λ (g : Bytes × ℕ × Option Error × Reader).
          (g.1 + left g.3 ≡ left r) × (g.2 ≡ none → g.1 ≡ j - i))
        (fill b i j r)
unfolding fill
fill-takes b i j r =
    Ensures-check _ (leb i j && leb j (length b)) _
      (length-readn r (j - i), λ e. readn_full r (j - i) e)

fill_all-takes :
    (b : Bytes) (i j : ℕ) (r : Reader)
    → Ensures (λ (g : Bytes × Reader). left g.1 ≤ left r) (fill_all b i j r)
unfolding fill_all
fill_all-takes b i j r =
    Ensures->>= _ (λ (g : Bytes × Reader). left g.1 ≤ left r) (fill b i j r) _ (fill-takes b i j r)
      after
  where
    after :
        (g : Bytes × ℕ × Option Error × Reader)
        → (g.1 + left g.3 ≡ left r) × (g.2 ≡ none → g.1 ≡ j - i)
        → Ensures
            (λ (g : Bytes × Reader). left g.1 ≤ left r)
            (elim g.2 [ some e' ↦ err e' | none ↦ ok (g.0, g.3) ])
    after (b', n, some e, r') h = tt
    after (b', n, none, r') (h, full) = omega arith

read_name-takes :
    (b : Bytes) (wait z : ℕ) (r : Reader) (readz : ℕ)
    → Ensures (λ (p : Part). left p.s ≤ left r) (read_name b wait z r readz)
unfolding read_name
read_name-takes b wait z r readz =
    Ensures->>= _ _ (parse_uint (slice b z (z + 3)) 16) _ (Ensures-any _) λ n _.
      Ensures->>= (λ (g : Bytes × Reader). left g.1 ≤ left r) _ _ _
        (Ensures-if _ (ltb readz (z + 3 + n + 8)) _ _ (fill_all-takes _ _ _ r) (omega arith))
        λ g h. h

read_wait-takes :
    (b : Bytes) (z : ℕ) (r : Reader) → Ensures (λ (p : Part). left p.s ≤ left r) (read_wait b z r)
unfolding read_wait
read_wait-takes b z r = Ensures->>= _ _ (parse_uint (slice b z (z + 8)) 32) _ (Ensures-any _) λ n _.
    Ensures->>= (λ (g : Bytes × Reader). left g.1 ≤ left r) _ _ _ (fill_all-takes _ _ _ r) λ g h. h

read_fields-takes :
    (b : Bytes) (readz : ℕ) (r : Reader)
    → Ensures (λ (g : Msg × Reader × Bytes). left g.1 ≤ left r) (read_fields b readz r)
unfolding read_fields read_part
read_fields-takes b readz r = Ensures->>= _ _ (read_head (get_or b 0 0) b) _ (Ensures-any _) λ g _.
    Ensures->>= (λ (p : Part). left p.s ≤ left r) _ _ _
      (Ensures-if _ (has_name (get_or b 0 0)) _ _ (read_name-takes b g.1 g.2 r readz) (
        Ensures-if _ (get_or b 0 0 == msg_type_retry_res) _ _ (read_wait-takes b g.2 r)
          (omega arith)))
      λ p h.
        Ensures->>= _ (λ (g : Msg × Reader × Bytes). left g.1 ≤ left r)
          (parse_uint (slice p.b p.z (p.z + 8)) 32) _ (Ensures-any _) λ n _. h

header_error-none :
    (e : Option Error) (readz t : ℕ) → header_error e readz t ≡ none → (e ≡ none) ⊎ (9 ≤ readz)
unfolding header_error
header_error-none none readz t h = inl refl
header_error-none (some e) readz t h = ground arith

-- Each message takes 9 bytes of the stream at least.
pub read_msg-shorter :
    (r : Reader) (b : Bytes)
    → Ensures (λ (g : Msg × Reader × Bytes). left g.1 + 9 ≤ left r) (read_msg r b)
unfolding read_msg
read_msg-shorter r b =
    Ensures->>= _ (λ (g : Msg × Reader × Bytes). left g.1 + 9 ≤ left r) (fill b 0 13 r) _
      (fill-takes b 0 13 r) after
  where
    parts :
        (g : Bytes × ℕ × Option Error × Reader)
        → 9 + left g.3 ≤ left r
        → Ensures (λ (g : Msg × Reader × Bytes). left g.1 + 9 ≤ left r) (read_fields g.0 g.1 g.3)
    parts g h =
        Ensures-weaken (λ (k : Msg × Reader × Bytes). left k.1 ≤ left g.3)
          (λ (k : Msg × Reader × Bytes). left k.1 + 9 ≤ left r) _ (λ k le. omega arith)
          (read_fields-takes g.0 g.1 g.3)

    go :
        (g : Bytes × ℕ × Option Error × Reader) (e : Option Error)
        → header_error g.2 g.1 (get_or g.0 0 0) ≡ e
        → (g.1 + left g.3 ≡ left r) × (g.2 ≡ none → g.1 ≡ 13 - 0)
        → Ensures
            (λ (g : Msg × Reader × Bytes). left g.1 + 9 ≤ left r)
            (elim e [ some e' ↦ err e' | none ↦ read_fields g.0 g.1 g.3 ])
    go g (some e) q h = tt
    go g none q (taken, full) = parts g (elim (header_error-none g.2 g.1 (get_or g.0 0 0) q) [
      | inl clean ↦ omega (arith, full clean)
      | inr nine ↦ omega arith
    ])

    after :
        (g : Bytes × ℕ × Option Error × Reader)
        → (g.1 + left g.3 ≡ left r) × (g.2 ≡ none → g.1 ≡ 13 - 0)
        → Ensures
            (λ (g : Msg × Reader × Bytes). left g.1 + 9 ≤ left r)
            (elim (header_error g.2 g.1 (get_or g.0 0 0)) [
              | some e' ↦ err e'
              | none ↦ read_fields g.0 g.1 g.3
            ])
    after g h = go g _ refl h
