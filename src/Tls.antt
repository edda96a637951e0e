-- ===== src/Tls.antt =====
-- tls.go: the pool of root certificates, and the configurations that are made with it.
use gotalk.Common.{
  Bytes, List, Option, Bool, Result, some, none, ok, err, true, false, [], failed, Error, panic, ℕ,
}

-- The certificates of a pool
abbrev pub Pool : Type 0
Pool = List Bytes

-- What the code sets of a `tls.Config`; `settings` stands for the rest.
pub record TlsConfig : Type 0 where
  pub root_cas : Option Pool
  pub certificates : List Bytes
  pub settings : ℕ

-- `init`, by what `x509.SystemCertPool` gives
unfoldable pub init_pool : Option Pool → Pool
init_pool (some pool) = pool
init_pool none = []

unfoldable pub pool_appended : Bool × Pool → Option Error × Pool
pool_appended (true, pool) = (none, pool)
pool_appended (false, pool) = (some failed, pool)

unfoldable pub pool_read :
    (Pool → Bytes → Bool × Pool) → Pool → Result Bytes → Result (Option Error × Pool)
pool_read append_certs pool (ok buf) = ok (pool_appended (append_certs pool buf))
pool_read append_certs pool (err e) = ok (some e, pool)
pool_read append_certs pool panic = panic

-- `TLSAddRootCerts`, by what the file gives and `AppendCertsFromPEM` makes of it
unfoldable pub tls_add_root_certs :
    (Bytes → Result Bytes)
    → (Pool → Bytes → Bool × Pool)
    → Bytes
    → Pool
    → Result (Option Error × Pool)
tls_add_root_certs read_file append_certs cert_file pool =
    pool_read append_certs pool (read_file cert_file)

unfoldable pub with_roots : Pool → TlsConfig → Option Pool → TlsConfig
with_roots pool config none = record config { root_cas = some pool }
with_roots pool config (some own) = config

-- The configuration that `ConnectTLS` uses
unfoldable pub config_or_default : Pool → Option TlsConfig → TlsConfig
config_or_default pool none = record { root_cas = some pool; certificates = []; settings = 0 }
config_or_default pool (some config) = with_roots pool config config.root_cas
