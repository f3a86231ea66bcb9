-- ===== src/Certificate.antt =====
-- src/service/CertificateService.ts: when the certificates of a node are made or renewed.
--
-- `openssl` stands for the run of createNodeCertificates.sh in docker: it is given whether the CA
-- certificate is kept, the contents of ca.der, node.der and serial.dat, and gives what is printed.
-- Of the folder only metadata.yml is kept: none, or what loading it gives.
pub mod Output
pub mod Settled
mod Examples
use symbol_bootstrap.Base.{
  ℕ, ◌+◌, Bool, true, false, not, ◌&&◌, ◌||◌, Option, none, some, List, [], ◌∷◌, ◌++◌, ◌==◌,
  if◌then◌else◌,
}
use symbol_bootstrap.Base.Text.{Text, text, text_eq, to_lower_case, contains, is_empty}
use symbol_bootstrap.Base.Result.{Result, returned, raised, error, guard, ◌>>=◌, ◌>>◌}
use symbol_bootstrap.Account.{Keys, ConfigAccount, AccountResolver, main, transport}
use symbol_bootstrap.Base.Strings.{trim}
use symbol_bootstrap.Certificate.Output.{CertificatePair, get_certificates, expiration_date}

pub data RenewMode : Type 0 where
  always when_required only_warning : RenewMode

pub record NodeCertificates : Type 0 where
  pub main_account : ConfigAccount
  pub transport_account : ConfigAccount

pub record CertificateMetadata : Type 0 where
  pub version : ℕ
  pub transport_public_key : Text
  pub main_public_key : Text

abbrev pub MetadataFile : Type 0
MetadataFile = Option (Result CertificateMetadata)

unfoldable pub should_generate_certificate : MetadataFile → NodeCertificates → Bool
should_generate_certificate none certificates = true
should_generate_certificate (some (raised e)) certificates = true
should_generate_certificate (some (returned m)) certificates =
    not (text_eq m.main_public_key certificates.main_account.public_key)
    || not (text_eq m.transport_public_key certificates.transport_account.public_key)
    || not (m.version == 1)

-- `willCertificateExpire`, on what openssl prints.
unfoldable pub will_certificate_expire : Text → Result Bool
will_certificate_expire stdout = elim (expiration_date stdout) [
  | none ↦ raised (error "Expiration Date cannot be resolved. Check the logs!")
  | some date ↦
      if contains stdout (text "Certificate will expire")
      then returned true
      else if contains stdout (text "Certificate will not expire")
      then returned false
      else raised (error "Cannot validate certificate expiration. Check the logs!")
]

unfoldable pub to_ans1 : Text → Text
to_ans1 private_key = text "302e020100300506032b657004220420" ++ to_lower_case private_key

abbrev is_always : RenewMode → Bool
is_always m = elim m [ always ↦ true | _ ↦ false ]

abbrev is_when_required : RenewMode → Bool
is_when_required m = elim m [ when_required ↦ true | _ ↦ false ]

-- Whether certificates that are there are renewed.
abbrev pub should_renew : Bool → RenewMode → Bool
should_renew will_expire mode = will_expire && is_when_required mode || is_always mode

-- `randomSerial?.trim() || …`, with the random bytes in hexadecimal.
abbrev pub serial_of : Option Text → Text → Text
serial_of none random = to_lower_case random ++ text "\n"
serial_of (some t) random =
    to_lower_case (if is_empty (trim t) then random else trim t) ++ text "\n"

-- The two certificates against the accounts.
unfoldable pub check_certificates :
    Keys → Keys → NodeCertificates → List CertificatePair → Result (Unit {0})
check_certificates main_keys transport_keys certificates (ca ∷ node ∷ []) = do
  guard (text_eq ca.private_key main_keys.private_key) (error "Invalid ca private key")
  guard (text_eq ca.public_key certificates.main_account.public_key) (error "Invalid ca public key")
  guard (text_eq node.private_key transport_keys.private_key) (error "Invalid Node private key")
  guard (text_eq node.public_key certificates.transport_account.public_key)
      (error "Invalid Node public key")
check_certificates main_keys transport_keys certificates _ =
    raised (error "Certificate creation failed. 2 certificates should have been created")

module _ (resolver : AccountResolver) (openssl : Bool → Text → Text → Text → Text)
    (random_serial : Option Text) (random : Text) where
  -- The metadata that is written.
  unfoldable pub create_certificate : Bool → NodeCertificates → Result CertificateMetadata
  create_certificate renew certificates = do
    main_keys ← resolver (some certificates.main_account) main (some "Should not generate!")
    transport_keys ←
        resolver (some certificates.transport_account) transport (some "Should not generate!")
    let stdout =
        openssl renew (to_ans1 main_keys.private_key) (to_ans1 transport_keys.private_key)
          (serial_of random_serial random)
    guard (contains stdout (text "Certificate Created"))
        (error "Certificate creation failed. Check the logs!")
    pairs ← get_certificates stdout
    check_certificates main_keys transport_keys certificates pairs
    returned (record {
      version = 1;
      transport_public_key = certificates.transport_account.public_key;
      main_public_key = certificates.main_account.public_key;
    })

  -- `run`: what it returns, and the metadata file afterwards. `checked` is what openssl prints of
  -- the certificate that is there.
  unfoldable pub run_certificates :
      MetadataFile → Text → NodeCertificates → RenewMode → Result (Bool × MetadataFile)
  run_certificates file checked certificates mode =
      if should_generate_certificate file certificates
      then (do
        metadata ← create_certificate false certificates
        returned (true, some (returned metadata)))
      else (do
        will_expire ← will_certificate_expire checked
        (if should_renew will_expire mode
            then (do
              metadata ← create_certificate true certificates
              returned (true, some (returned metadata)))
            else returned (false, file)))
