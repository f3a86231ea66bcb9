-- ===== src/Account/Modes.antt =====
-- Which keys the security mode lets the program generate, and which keys it stores.
use symbol_bootstrap.Base.{◌≡◌, refl, ◌↔◌, false, none}
use symbol_bootstrap.Base.Text.{Text, text, to_lower_case, contains}
use symbol_bootstrap.Crypto.{
  PrivateKeySecurityMode, encrypt_all, prompt_main, prompt_main_transport, prompt_all,
  is_blacklisted, finds_name, blacklist_names,
}
use symbol_bootstrap.Account.{KeyName, main, remote, transport, vrf, resolve_generate_error_message}

-- The keys that `resolveNodeAccounts` resolves.
pub data NodeKey : Type 0 where
  main_key transport_key remote_key vrf_key : NodeKey

abbrev pub key_name : NodeKey → KeyName
key_name main_key = main
key_name transport_key = transport
key_name remote_key = remote
key_name vrf_key = vrf

-- The field of `NodeAccount` that holds the key.
abbrev pub field_name : NodeKey → Text
field_name main_key = text "main"
field_name transport_key = text "transport"
field_name remote_key = text "remote"
field_name vrf_key = text "vrf"

-- A key of a node may be generated in a security mode exactly when that mode does not have its
-- private key removed from the addresses file: no generated key is lost, and none is refused that
-- would be stored.
pub generated_iff_stored :
    (mode : PrivateKeySecurityMode) (key : NodeKey)
    → (resolve_generate_error_message (key_name key) mode ≡ none)
      ↔ (is_blacklisted (blacklist_names mode) (field_name key) ≡ false)
unfolding resolve_generate_error_message is_blacklisted finds_name to_lower_case contains
generated_iff_stored encrypt_all main_key = (λ _. refl, λ _. refl)
generated_iff_stored encrypt_all transport_key = (λ _. refl, λ _. refl)
generated_iff_stored encrypt_all remote_key = (λ _. refl, λ _. refl)
generated_iff_stored encrypt_all vrf_key = (λ _. refl, λ _. refl)
generated_iff_stored prompt_main main_key = (λ e. cc, λ e. cc)
generated_iff_stored prompt_main transport_key = (λ _. refl, λ _. refl)
generated_iff_stored prompt_main remote_key = (λ _. refl, λ _. refl)
generated_iff_stored prompt_main vrf_key = (λ _. refl, λ _. refl)
generated_iff_stored prompt_main_transport main_key = (λ e. cc, λ e. cc)
generated_iff_stored prompt_main_transport transport_key = (λ e. cc, λ e. cc)
generated_iff_stored prompt_main_transport remote_key = (λ _. refl, λ _. refl)
generated_iff_stored prompt_main_transport vrf_key = (λ _. refl, λ _. refl)
generated_iff_stored prompt_all main_key = (λ e. cc, λ e. cc)
generated_iff_stored prompt_all transport_key = (λ e. cc, λ e. cc)
generated_iff_stored prompt_all remote_key = (λ e. cc, λ e. cc)
generated_iff_stored prompt_all vrf_key = (λ e. cc, λ e. cc)
