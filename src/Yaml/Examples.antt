-- ===== src/Yaml/Examples.antt =====
-- The yaml properties at an addresses file with one private key.
use symbol_bootstrap.Base.{ℕ, suc, ◌<◌, Option, none, some, [], ◌∷◌, ◌≡◌, refl, arith}
use symbol_bootstrap.Base.Text.{Text, text, ends_with, to_lower_case}
use symbol_bootstrap.Base.Result.{Result, returned, raised, known_error, ◌>>=◌}
use symbol_bootstrap.Value.{Value, str, obj, field, no_fields}
use symbol_bootstrap.Crypto.{encrypt, is_encryptable_name}
use symbol_bootstrap.Crypto.Secrets.{secrets}
use symbol_bootstrap.Yaml.{password, Files, write_yaml, load_yaml, validate_password}
use symbol_bootstrap.Yaml.RoundTrip.{load_yaml-write_yaml}

-- A cipher that writes the salt before the text and takes it off again.
abbrev salted_seal : ℕ → Text → Text → Text × ℕ
salted_seal salt t p = (salt ∷ t, suc salt)

abbrev salted_unseal : Text → Text → Option Text
salted_unseal [] p = none
salted_unseal (salt ∷ t) p = some t

abbrev signer : Value
signer = obj (field (text "privateKey") (str (text "ab")) no_fields)

abbrev no_files : Files
no_files path = none

-- A yaml library for this one object.
abbrev dump_signer : Value → Text
dump_signer v = text "- signer"

abbrev load_signer : Text → Result Value
load_signer t = returned (encrypt salted_seal (text "pass") 7 none signer).0

load_yaml-write_yaml_example :
    (write_yaml salted_seal dump_signer 7 no_files (text "a.yml") signer (password (text "pass"))
      >>= λ after.
          load_yaml salted_unseal load_signer after (text "a.yml") (password (text "pass")))
    ≡ returned signer
load_yaml-write_yaml_example =
    load_yaml-write_yaml salted_seal salted_unseal dump_signer load_signer (λ s t p. refl) 7
      no_files (text "a.yml") signer (text "pass") (omega arith) refl

signer_has_a_secret : 0 < secrets none signer
unfolding secrets is_encryptable_name ends_with to_lower_case
signer_has_a_secret = omega arith

short_password : validate_password (text "abc") ≡ raised (known_error "Password is too short.")
unfolding validate_password
short_password = refl
