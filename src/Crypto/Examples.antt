-- ===== src/Crypto/Examples.antt =====
-- Runs of CryptoUtils on a small addresses file, and the properties at it.
use symbol_bootstrap.Base.{ℕ, suc, ◌≡◌, ◌↔◌, refl, false, Option, none, some, List, [], ◌∷◌}
use symbol_bootstrap.Base.Text.{Text, text, text_eq, to_lower_case, ends_with, contains}
use symbol_bootstrap.Base.Result.{returned}
use symbol_bootstrap.Value.{Value, num, str, arr, obj, element, no_items, field, no_fields}
use symbol_bootstrap.Crypto.{
  encrypt, decrypt, remove_private_keys, is_encryptable_key_field, is_encryptable_name,
  is_blacklisted, finds_name, prompt_main, get_private_key_security_mode,
}
use symbol_bootstrap.Crypto.Secrets.{Step, key, item, Holds, is_protected, secrets}
use symbol_bootstrap.Crypto.RoundTrip.{decrypt-encrypt}
use symbol_bootstrap.Crypto.Removal.{remove_private_keys_exact}

-- A cipher that writes the salt before the text and takes it off again.
abbrev plain_seal : ℕ → Text → Text → Text × ℕ
plain_seal salt t password = (salt ∷ t, suc salt)

abbrev plain_unseal : Text → Text → Option Text
plain_unseal [] password = none
plain_unseal (salt ∷ t) password = some t

abbrev account : Text → Value
account t = obj (field (text "privateKey") (str t) (field (text "publicKey") (str t) no_fields))

abbrev node : Value
node = obj (
    field (text "main") (account (text "ab"))
      (field (text "transport") (account (text "cd")) (field (text "version") (num 2) no_fields)))

abbrev addresses : Value
addresses = obj (field (text "nodes") (arr (element node no_items)) no_fields)

abbrev main_key : List Step
main_key = key (text "nodes") ∷ item ∷ key (text "main") ∷ key (text "privateKey") ∷ []

decrypt-encrypt_example :
    decrypt plain_unseal (text "pass") none (encrypt plain_seal (text "pass") 7 none addresses).0
    ≡ returned addresses
decrypt-encrypt_example =
    decrypt-encrypt plain_seal plain_unseal (text "pass") (λ s t. refl) 7 addresses

two_secrets : secrets none addresses ≡ 2
unfolding secrets is_encryptable_name ends_with to_lower_case
two_secrets = refl

remove_private_keys_exact_example :
    Holds main_key (text "ab") (remove_private_keys (text "main" ∷ []) addresses)
    ↔ (Holds main_key (text "ab") addresses × (is_protected (text "main" ∷ []) main_key ≡ false))
remove_private_keys_exact_example =
    remove_private_keys_exact (text "main" ∷ []) main_key (text "ab") addresses

main_key_is_removed :
    remove_private_keys
      (text "main" ∷ [])
      (obj (field (text "main") (account (text "ab")) no_fields))
    ≡ obj
        (field (text "main") (obj (field (text "publicKey") (str (text "ab")) no_fields)) no_fields)
unfolding remove_private_keys is_encryptable_key_field is_encryptable_name ends_with is_blacklisted
    finds_name contains to_lower_case
main_key_is_removed = refl

mode_ignores_case : get_private_key_security_mode (some (text "prompt_Main")) ≡ returned prompt_main
unfolding get_private_key_security_mode to_lower_case text_eq
mode_ignores_case = refl
