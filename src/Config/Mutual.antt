-- ===== src/Config/Mutual.antt =====
-- What the TLS settings of internal/config/tls.go demand of either side.
use airpc.Prelude.{
  ◌≡◌, ◌⊎◌, inl, inr, refl, true, false, not, [], ◌∷◌, Option, none, some, Text, is_empty, ok,
  arith, Bool-cases, Result-cases,
}
use airpc.Config.Shape.{TlsServerConfig, TlsClientConfig}
use airpc.Config.Tls.{
  Files, tls12, TlsConfig, load_cert_pool, server_tls, data_tls, with_root_cas, with_certificate,
  client_tls,
}

module _ (f : Files) where
  -- The certificates of a file that is named, and that has some.
  pub record IsPoolOf (path pem : Text) : Type 0 where
    pub named : is_empty path ≡ false
    pub contents : f.read_file path ≡ ok pem
    pub some_found : f.has_certificates pem ≡ true

  -- Peers are verified against the certificates of a file exactly if the file is named.
  pub data Pool (path : Text) (pool : Option Text) : Type 0 where
    unnamed : is_empty path ≡ true → pool ≡ none → Pool path pool
    from_file : (pem : Text) → IsPoolOf path pem → pool ≡ some pem → Pool path pool

  pub record IsMutual (t : TlsServerConfig) (c : TlsConfig) : Type 0 where
    pub modern : c.min_version ≡ tls12
    pub own :
        (cert : Text) × (f.load_key_pair t.cert_file t.key_file ≡ ok cert)
        × (c.certificates ≡ cert ∷ [])
    pub client_pool : Pool t.client_ca_file c.client_cas
    pub verified : c.verify_clients ≡ not (is_empty t.client_ca_file)

  load_cert_pool-IsPoolOf :
      (path pem : Text) → is_empty path ≡ false → load_cert_pool f path ≡ ok pem → IsPoolOf path pem
  unfolding load_cert_pool
  load_cert_pool-IsPoolOf path pem named h = elim (Result-cases (f.read_file path)) [
    | inr (e, k) ↦ absurd (ground (arith, k, h))
    | inl (bytes, k) ↦ elim (Bool-cases (f.has_certificates bytes)) [
      | inr g ↦ absurd (ground (arith, k, g, h))
      | inl g ↦
          let same : bytes ≡ pem = ground (arith, k, g, h) in
          record { named = named; contents = ground (arith, k); some_found = ground (arith, g) }
    ]
  ]

  -- The listener of the data tunnel, if its settings can be made, speaks TLS 1.2 at least, with the
  -- certificate of the configuration, and demands a certificate of its clients exactly if a file of
  -- client CAs is named, which is then the pool that they are verified against.
  pub data_tls-IsMutual : (t : TlsServerConfig) (c : TlsConfig) → data_tls f t ≡ ok c → IsMutual t c
  unfolding data_tls server_tls
  data_tls-IsMutual t c h = elim (Result-cases (f.load_key_pair t.cert_file t.key_file)) [
    | inr (e, k) ↦ absurd (ground (arith, k, h))
    | inl (cert, k) ↦ elim (Bool-cases (is_empty t.client_ca_file)) [
      | inl none_named ↦ record {
        modern = ground (arith, k, none_named, h);
        own = (cert, k, ground (arith, k, none_named, h));
        client_pool = unnamed none_named (ground (arith, k, none_named, h));
        verified = ground (arith, k, none_named, h);
      }
      | inr named ↦ elim (Result-cases (load_cert_pool f t.client_ca_file)) [
        | inr (e, g) ↦ absurd (ground (arith, k, named, g, h))
        | inl (pem, g) ↦ record {
          modern = ground (arith, k, named, g, h);
          own = (cert, k, ground (arith, k, named, g, h));
          client_pool =
              from_file pem (load_cert_pool-IsPoolOf t.client_ca_file pem named g)
                (ground (arith, k, named, g, h));
          verified = ground (arith, k, named, g, h);
        }
      ]
    ]
  ]

  -- A public listener demands no certificate of its clients.
  pub server_tls-open :
      (t : TlsServerConfig) (c : TlsConfig)
      → server_tls f t ≡ ok c
      → (c.min_version ≡ tls12) × (c.verify_clients ≡ false) × (c.client_cas ≡ none)
  unfolding server_tls
  server_tls-open t c h = elim (Result-cases (f.load_key_pair t.cert_file t.key_file)) [
    | inr (e, k) ↦ absurd (ground (arith, k, h))
    | inl (cert, k) ↦ (ground (arith, k, h), ground (arith, k, h), ground (arith, k, h))
  ]

  pub record IsTrusting (t : TlsClientConfig) (c : TlsConfig) : Type 0 where
    pub modern : c.min_version ≡ tls12
    pub named : c.server_name ≡ t.server_name
    pub trusted : Pool t.ca_file c.root_cas
    pub own :
        ((is_empty t.cert_file ≡ true) × (c.certificates ≡ []))
        ⊎ ((cert : Text) × (f.load_key_pair t.cert_file t.key_file ≡ ok cert)
            × (c.certificates ≡ cert ∷ []))

  with_certificate_own :
      (t : TlsClientConfig) (b c : TlsConfig)
      → b.certificates ≡ []
      → with_certificate f t b ≡ ok c
      → (c.min_version ≡ b.min_version)
        × (c.server_name ≡ b.server_name)
        × (c.root_cas ≡ b.root_cas)
        × (((is_empty t.cert_file ≡ true) × (c.certificates ≡ []))
            ⊎ ((cert : Text) × (f.load_key_pair t.cert_file t.key_file ≡ ok cert)
                × (c.certificates ≡ cert ∷ [])))
  unfolding with_certificate
  with_certificate_own t b c e h = elim (Bool-cases (is_empty t.cert_file)) [
    | inl none_named ↦ (
      ground (arith, none_named, h),
      ground (arith, none_named, h),
      ground (arith, none_named, h),
      inl (none_named, ground (arith, none_named, h, e)),
    )
    | inr named ↦ elim (Result-cases (f.load_key_pair t.cert_file t.key_file)) [
      | inr (x, k) ↦ absurd (ground (arith, named, k, h))
      | inl (cert, k) ↦ (
        ground (arith, named, k, h),
        ground (arith, named, k, h),
        ground (arith, named, k, h),
        inr (cert, k, ground (arith, named, k, h)),
      )
    ]
  ]

  -- The dial of the data tunnel, if its settings can be made, speaks TLS 1.2 at least, expects the name of
  -- the configuration, trusts the certificates of the CA file if one is named (and those of the system
  -- else), and shows a certificate exactly if the configuration names one.
  pub client_tls-IsTrusting :
      (t : TlsClientConfig) (c : TlsConfig) → client_tls f t ≡ ok c → IsTrusting t c
  unfolding client_tls with_root_cas
  client_tls-IsTrusting t c h = elim (Bool-cases (is_empty t.ca_file)) [
    | inl none_named ↦
        let base : TlsConfig = record {
          certificates = [];
          min_version = tls12;
          server_name = t.server_name;
          root_cas = none;
          client_cas = none;
          verify_clients = false;
        } in
        let (m, n, r, own) = with_certificate_own t base c refl (ground (arith, none_named, h)) in
        record { modern = m; named = n; trusted = unnamed none_named r; own = own }
    | inr named ↦ elim (Result-cases (load_cert_pool f t.ca_file)) [
      | inr (e, g) ↦ absurd (ground (arith, named, g, h))
      | inl (pem, g) ↦
          let base : TlsConfig = record {
            certificates = [];
            min_version = tls12;
            server_name = t.server_name;
            root_cas = some pem;
            client_cas = none;
            verify_clients = false;
          } in
          let (m, n, r, own) = with_certificate_own t base c refl (ground (arith, named, g, h)) in
          record {
            modern = m;
            named = n;
            trusted = from_file pem (load_cert_pool-IsPoolOf t.ca_file pem named g) r;
            own = own;
          }
    ]
  ]
