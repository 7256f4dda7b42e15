-- ===== src/Config/Tls.antt =====
-- internal/config/tls.go: the TLS settings of the listeners and of the dial of the data tunnel. The files
-- and what crypto/tls and crypto/x509 read of them are arguments; a certificate and a pool are kept as the
-- texts that they are read from.
use airpc.Prelude.{
  ℕ, Bool, true, false, List, [], ◌∷◌, Option, none, some, Text, is_empty, Result, ok, guard,
  map_err, ◌>>=◌, ◌>>◌, if◌then◌else◌,
}
use airpc.Config.Shape.{TlsServerConfig, TlsClientConfig}

-- `tls.LoadX509KeyPair`, `os.ReadFile`, and whether `AppendCertsFromPEM` finds a certificate.
pub record Files : Type 0 where
  pub load_key_pair : Text → Text → Result Text Text
  pub read_file : Text → Result Text Text
  pub has_certificates : Text → Bool

pub data TlsError : Type 0 where
  edge_key_pair edge_client_ca connector_ca connector_key_pair : Text → TlsError

-- `tls.VersionTLS12`
abbrev pub tls12 : ℕ
tls12 = 0x0303

-- What the program sets of a `tls.Config`; `verify_clients` is `ClientAuth` at
-- `RequireAndVerifyClientCert`.
pub record TlsConfig : Type 0 where
  pub certificates : List Text
  pub min_version : ℕ
  pub server_name : Text
  pub root_cas : Option Text
  pub client_cas : Option Text
  pub verify_clients : Bool

module _ (f : Files) where
  -- The text of the error is the one of the file, or the path that holds no certificate.
  unfoldable pub load_cert_pool : Text → Result Text Text
  load_cert_pool path = do pem ← f.read_file path; guard (f.has_certificates pem) path; ok pem

  unfoldable pub server_tls : TlsServerConfig → Result TlsError TlsConfig
  server_tls t = do
    cert ← map_err edge_key_pair (f.load_key_pair t.cert_file t.key_file)
    ok (record {
      certificates = cert ∷ [];
      min_version = tls12;
      server_name = [];
      root_cas = none;
      client_cas = none;
      verify_clients = false;
    })

  unfoldable pub data_tls : TlsServerConfig → Result TlsError TlsConfig
  unfolding server_tls load_cert_pool
  data_tls t = do
    cfg ← server_tls t
    if is_empty t.client_ca_file
        then ok cfg
        else map_err edge_client_ca (load_cert_pool t.client_ca_file) >>= λ pool.
            ok (record cfg { client_cas = some pool; verify_clients = true })

  -- The part of `ClientTLS` on the CA file, and that on the key pair.
  unfoldable pub with_root_cas : TlsClientConfig → TlsConfig → Result TlsError TlsConfig
  unfolding load_cert_pool
  with_root_cas t cfg =
      if is_empty t.ca_file
      then ok cfg
      else map_err connector_ca (load_cert_pool t.ca_file) >>= λ pool.
          ok (record cfg { root_cas = some pool })

  unfoldable pub with_certificate : TlsClientConfig → TlsConfig → Result TlsError TlsConfig
  with_certificate t cfg =
      if is_empty t.cert_file
      then ok cfg
      else map_err connector_key_pair (f.load_key_pair t.cert_file t.key_file) >>= λ cert.
          ok (record cfg { certificates = cert ∷ [] })

  unfoldable pub client_tls : TlsClientConfig → Result TlsError TlsConfig
  unfolding with_root_cas with_certificate
  client_tls t = do
    cfg ← with_root_cas t (record {
      certificates = [];
      min_version = tls12;
      server_name = t.server_name;
      root_cas = none;
      client_cas = none;
      verify_clients = false;
    })
    with_certificate t cfg
