-- ===== src/Sock/Dialing/Outcomes.antt =====
-- How `Connect` and `ConnectTLS` end: with a goroutine that reads, with a closed socket, or with no connection.
use mathlib.Core.Path.{subst}
use gotalk.Common.{
  Error, ℕ, ◌≡◌, Bytes, ok, Bool, Option, ◌∷◌, Bool-cases, Result, [], ◌≢◌, some, ◌==◌, ◌∙◌, ◌⊎◌,
  ap₂, inl, inr, none, ap, eqb-true_eq, true, arith, ◌>>=◌, refl, sym,
}
use gotalk.Sock.{Sock, Conn}
use gotalk.Sock.Dialing.{
  Dialed, dialed, not_dialed, Reading, reading_unless, connect_dialed, connect_tls,
}
use gotalk.Sock.Setup.{connect_reader, adopt, is_closed}
use gotalk.Sock.Setup.Handshaking.{handshake-agrees, handshake-refuses}
use gotalk.Sock.Wire.{IsWritable}
use gotalk.Protocol.Version.{protocol_version_buf}
use gotalk.Protocol.Reader.{Reader}
use gotalk.Protocol.Reader.Exact.{IsQuiet, stream}
use gotalk.Limits.{Limits}
use gotalk.Tls.{TlsConfig, Pool, config_or_default, with_roots}
use gotalk.Protocol.Fixnum.{
  copy_fixnum, write_digits, r_shift_slice, shift_loop, shift_round, pad_loop, format_uint,
  format_bits, digit,
}

-- A connection that takes every write, from which these two bytes and then the rest come.
abbrev pub Greets : Dialed → ℕ → ℕ → Bytes → Type 0
Greets (dialed c r) a d rest = IsWritable c × IsQuiet r × (stream r ≡ a ∷ d ∷ rest)
Greets (not_dialed e) a d rest = Unit {0}

-- How it ends
abbrev pub Concludes :
    Dialed
    → ℕ
    → ℕ
    → Bytes
    → Option Limits
    → Sock
    → Result (Option Error × Option Reading × Sock)
    → Type 0
Concludes (not_dialed e) a d rest limits s out = out ≡ ok (some e, none, s)
Concludes (dialed c r) a d rest limits s out =
    ((a ≡ b'0')
      × (d ≡ b'1')
      × ((r' : Reader) × (out
            ≡ ok (
              none,
              some (record { reader = r'; limits = limits }),
              record (adopt s) { writes = (b'0' ∷ b'1' ∷ []) ∷ [] },
            ))
          × (stream r' ≡ rest)))
    ⊎ (((a ≢ b'0') ⊎ (d ≢ b'1'))
        × ((e : Error) × (s' : Sock) × (out ≡ ok (some e, none, s'))
            × (is_closed s' ≡ true)
            × (s'.pending_res ≡ [])))

version_made : protocol_version_buf ≡ ok (b'0' ∷ b'1' ∷ [])
unfolding protocol_version_buf copy_fixnum write_digits r_shift_slice shift_loop shift_round
    pad_loop format_uint format_bits digit
version_made = refl

-- The roots that are trusted: the configuration's own, or else those of the pool
abbrev roots_or : Pool → Option Pool → Pool
roots_or pool none = pool
roots_or pool (some own) = own

abbrev settings_or : Option TlsConfig → TlsConfig
settings_or none = record { root_cas = none; certificates = []; settings = 0 }
settings_or (some config) = config

abbrev pub trusting : Pool → Option TlsConfig → TlsConfig
trusting pool config = record (settings_or config) {
  root_cas = some (roots_or pool (settings_or config).root_cas);
}

config_or_default-trusting :
    (pool : Pool) (config : Option TlsConfig) → config_or_default pool config ≡ trusting pool config
unfolding config_or_default with_roots
config_or_default-trusting pool none = refl
config_or_default-trusting pool (some config) = roots config.root_cas refl
  where
    roots :
        (o : Option Pool)
        → config.root_cas ≡ o
        → with_roots pool config o ≡ record config { root_cas = some (roots_or pool o) }
    roots none e = refl
    roots (some own) e = ap (λ r. record config { root_cas = r }) e

module _ (text : Error → Bytes) (has_room : ℕ → Bool) where
  agreed :
      (c : Conn) (r : Reader) (a d : ℕ) (rest : Bytes) (limits : Option Limits) (s : Sock)
      → IsWritable c
      → IsQuiet r
      → stream r ≡ a ∷ d ∷ rest
      → a ≡ b'0'
      → d ≡ b'1'
      → Concludes
          (dialed c r)
          a
          d
          rest
          limits
          s
          (connect_dialed text has_room (dialed c r) limits s)
  unfolding connect_dialed connect_reader adopt reading_unless
  agreed c r a d rest limits s writable q es ea ed =
      let (r', done, back) =
        handshake-agrees c text has_room writable r (adopt s) (b'0' ∷ b'1' ∷ []) rest version_made
          refl q (es ∙ ap₂ (λ x y. x ∷ y ∷ rest) ea ed) in
      inl (
        ea,
        ed,
        (r', ap (λ m. m >>= (λ x. ok (x.0, reading_unless x.0 x.1 limits, x.2))) done, back),
      )

  refused :
      (c : Conn) (r : Reader) (a d : ℕ) (rest : Bytes) (limits : Option Limits) (s : Sock)
      → IsWritable c
      → IsQuiet r
      → stream r ≡ a ∷ d ∷ rest
      → (a ≢ b'0') ⊎ (d ≢ b'1')
      → Concludes
          (dialed c r)
          a
          d
          rest
          limits
          s
          (connect_dialed text has_room (dialed c r) limits s)
  unfolding connect_dialed connect_reader adopt reading_unless
  refused c r a d rest limits s writable q es other =
      let (e, r', s', done, shut, none_left) =
        handshake-refuses c text has_room writable r (adopt s) a d rest (b'0' ∷ b'1' ∷ [])
          version_made refl refl q es other in
      inr (
        other,
        (
          e,
          s',
          ap (λ m. m >>= (λ x. ok (x.0, reading_unless x.0 x.1 limits, x.2))) done,
          shut,
          none_left,
        ),
      )

  connect_dialed-Concludes :
      (g : Dialed) (a d : ℕ) (rest : Bytes) (limits : Option Limits) (s : Sock)
      → Greets g a d rest
      → Concludes g a d rest limits s (connect_dialed text has_room g limits s)
  connect_dialed-Concludes (not_dialed e) a d rest limits s h = unfold connect_dialed in refl
  connect_dialed-Concludes (dialed c r) a d rest limits s (writable, q, es) =
      elim (Bool-cases (a == b'0')) [
        | inl ea ↦ elim (Bool-cases (d == b'1')) [
          | inl ed ↦
              agreed c r a d rest limits s writable q es (eqb-true_eq a b'0' ea)
                (eqb-true_eq d b'1' ed)
          | inr nd ↦ refused c r a d rest limits s writable q es (inr λ e. ground (arith, nd, e))
        ]
        | inr na ↦ refused c r a d rest limits s writable q es (inl λ e. ground (arith, na, e))
      ]

  -- Where dialing fails, or gives a connection that takes every write and on which a stream with no
  -- read failure comes that starts with two bytes: `Sock.ConnectTLS` dials with the given
  -- configuration, whose root certificates are those of `TLSCertPool` unless it has its own. It
  -- ends with the dialing's error and the socket as it was, or, where the two bytes are `01`,
  -- without an error, with this version written and a goroutine that reads the rest of the stream
  -- with the given limits, or else with an error, no goroutine, and the socket closed with no
  -- request pending.
  pub connect_tls-Concludes :
      (dial : Bytes → Bytes → TlsConfig → Dialed) (pool : Pool) (how addr : Bytes)
      (limits : Option Limits) (config : Option TlsConfig) (s : Sock) (a d : ℕ) (rest : Bytes)
      → Greets (dial how addr (trusting pool config)) a d rest
      → Concludes
          (dial how addr (trusting pool config))
          a
          d
          rest
          limits
          s
          (connect_tls text has_room dial pool how addr limits config s)
  unfolding connect_tls
  connect_tls-Concludes dial pool how addr limits config s a d rest h =
      subst
        (λ used.
          Concludes (dial how addr (trusting pool config)) a d rest limits s
            (connect_dialed text has_room (dial how addr used) limits s))
        (sym (config_or_default-trusting pool config))
        (connect_dialed-Concludes (dial how addr (trusting pool config)) a d rest limits s h)
