-- ===== src/Certificate/Settled.antt =====
-- What a run leaves: certificates that the next run does not make again.
use symbol_bootstrap.Base.{
  Option, ◌≡◌, refl, Bool, true, false, some, if◌then◌else◌, arith, Bool-cases, inl, inr,
}
use symbol_bootstrap.Base.Text.{Text, text_eq_refl}
use symbol_bootstrap.Base.Result.{Result, returned, ◌>>=◌, >>=-eq-returned}
use symbol_bootstrap.Account.{AccountResolver}
use symbol_bootstrap.Certificate.{
  RenewMode, NodeCertificates, CertificateMetadata, MetadataFile, should_generate_certificate,
  will_certificate_expire, should_renew, create_certificate, run_certificates,
}

-- The metadata of the accounts.
abbrev metadata_of : NodeCertificates → CertificateMetadata
metadata_of c = record {
  version = 1;
  transport_public_key = c.transport_account.public_key;
  main_public_key = c.main_account.public_key;
}

-- What `run` returns with new certificates.
abbrev written : CertificateMetadata → Result (Bool × MetadataFile)
written m = returned (true, some (returned m))

metadata_is_current :
    (c : NodeCertificates) → should_generate_certificate (some (returned (metadata_of c))) c ≡ false
unfolding should_generate_certificate
metadata_is_current c =
    rw (text_eq_refl c.main_account.public_key)
      (rw (text_eq_refl c.transport_account.public_key) refl)

module _ (resolver : AccountResolver) (openssl : Bool → Text → Text → Text → Text)
    (random_serial : Option Text) (random : Text) (c : NodeCertificates) where
  create_certificate-metadata :
      (renew : Bool) (m : CertificateMetadata)
      → create_certificate resolver openssl random_serial random renew c ≡ returned m
      → metadata_of c ≡ m
  unfolding create_certificate
  create_certificate-metadata renew m h = ground arith

  created :
      (renew : Bool) (r : Bool) (file : MetadataFile)
      → (create_certificate resolver openssl random_serial random renew c >>= written)
        ≡ returned (r, file)
      → should_generate_certificate file c ≡ false
  created renew r file h =
      let (m, made, e) =
        >>=-eq-returned (create_certificate resolver openssl random_serial random renew c) written
          h in
      let same : some (returned m) ≡ file = ground (arith, e) in
      rw (← same) (rw (← create_certificate-metadata renew m made) (metadata_is_current c))

  run_certificates-current :
      (file after : MetadataFile) (checked : Text) (mode : RenewMode) (r : Bool)
      → run_certificates resolver openssl random_serial random file checked c mode
        ≡ returned (r, after)
      → should_generate_certificate after c ≡ false
  unfolding run_certificates
  run_certificates-current file after checked mode r h =
      elim (Bool-cases (should_generate_certificate file c)) [
        | inl g ↦ created false r after (rw g at h)
        | inr g ↦
            let (b, _, h') =
              >>=-eq-returned (will_certificate_expire checked)
                (λ b.
                  if should_renew b mode
                  then (create_certificate resolver openssl random_serial random true c >>= written)
                  else returned (false, file))
                (rw g at h) in
            elim (Bool-cases (should_renew b mode)) [
              | inl s ↦ created true r after (rw s at h')
              | inr s ↦ let same : file ≡ after = ground (arith, rw s at h') in rw (← same) g
            ]
      ]

  -- After a run that returns, whatever it did, the certificates are those of the accounts: the next
  -- run makes none, and when it has no reason to renew either, by the mode and the expiration, it
  -- returns false and leaves the folder as it is.
  pub run_certificates_settled :
      (file after : MetadataFile) (checked later : Text) (mode next : RenewMode)
      (r will_expire : Bool)
      → run_certificates resolver openssl random_serial random file checked c mode
        ≡ returned (r, after)
      → will_certificate_expire later ≡ returned will_expire
      → should_renew will_expire next ≡ false
      → run_certificates resolver openssl random_serial random after later c next
        ≡ returned (false, after)
  unfolding run_certificates
  run_certificates_settled file after checked later mode next r will_expire h e s =
      rw (run_certificates-current file after checked mode r h) (rw e (rw s refl))
