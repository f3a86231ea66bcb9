-- ===== src/Certificate/Examples.antt =====
-- The certificates of a node whose private keys are As and Cs, and whose public keys are Bs and Ds.
use symbol_bootstrap.Base.{ℕ, ◌≡◌, refl, true, false, none, some, [], ◌++◌, replicate}
use symbol_bootstrap.Base.Text.{Text, text, text_eq, contains, to_upper_case, starts_with}
use symbol_bootstrap.Base.Result.{returned, raised, error}
use symbol_bootstrap.Account.{Keys, ConfigAccount, Sdk, AccountResolver}
use symbol_bootstrap.Account.Resolver.{default_resolver}
use symbol_bootstrap.Base.Strings.{split, trim_start, trim_end, is_space}
use symbol_bootstrap.Certificate.Output.{
  get_certificates, certificates_at, certificate_at, locations_from, index_of, extract_key,
  join_trimmed, expiration_date, line_of,
}
use symbol_bootstrap.Certificate.{
  only_warning, when_required, NodeCertificates, MetadataFile, should_generate_certificate,
  will_certificate_expire, check_certificates, create_certificate, run_certificates,
}
use symbol_bootstrap.Certificate.Settled.{run_certificates_settled}

abbrev letters : ℕ → Text
letters c = replicate 64 c

abbrev keys_of : Text → Keys
keys_of t = record { private_key = t; public_key = []; address = [] }

abbrev sdk : Sdk
sdk = record {
  create_from_private_key = λ t. returned (keys_of t);
  create_from_public_key = λ t. returned (record { public_key = t; address = [] });
}

abbrev resolver : AccountResolver
resolver = default_resolver sdk (keys_of [])

abbrev stored_account : Text → Text → ConfigAccount
stored_account private_key public_key = record {
  private_key = some private_key;
  public_key = public_key;
  address = [];
}

abbrev node : NodeCertificates
node = record {
  main_account = stored_account (letters b'A') (letters b'B');
  transport_account = stored_account (letters b'C') (letters b'D');
}

-- The output of openssl, whose keys are in lower case and have colons.
abbrev output : Text
output =
    text "priv: a:"
    ++ replicate 63 b'a'
    ++ text " pub:"
    ++ letters b'b'
    ++ text " Certificate:\n"
    ++ text "priv:"
    ++ letters b'c'
    ++ text "pub:"
    ++ letters b'd'
    ++ text "Certificate Created"

abbrev metadata : MetadataFile
metadata = some (
    returned
      (record { version = 1; transport_public_key = letters b'D'; main_public_key = letters b'B' }))

abbrev valid : Text
valid = text "notAfter=May 1\nCertificate will not expire\n"

first_run :
    run_certificates resolver (λ _ _ _ _. output) none [] none [] node only_warning
    ≡ returned (true, metadata)
unfolding run_certificates should_generate_certificate create_certificate default_resolver contains
    starts_with get_certificates certificates_at certificate_at locations_from index_of extract_key
    split join_trimmed trim_start trim_end is_space to_upper_case check_certificates text_eq
first_run = refl

valid_date : will_certificate_expire valid ≡ returned false
unfolding will_certificate_expire expiration_date line_of contains starts_with
valid_date = refl

run_certificates_settled_example :
    run_certificates resolver (λ _ _ _ _. output) none [] metadata valid node when_required
    ≡ returned (false, metadata)
run_certificates_settled_example =
    run_certificates_settled resolver (λ _ _ _ _. output) none [] node none metadata [] valid
      only_warning when_required true false first_run valid_date refl

no_certificates :
    run_certificates resolver
      (λ _ _ _ _. text "Certificate Created")
      none
      []
      none
      []
      node
      only_warning
    ≡ raised (error "Certificate creation failed. 2 certificates should have been created")
unfolding run_certificates should_generate_certificate create_certificate default_resolver contains
    starts_with get_certificates certificates_at locations_from check_certificates
no_certificates = refl
