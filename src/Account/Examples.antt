-- ===== src/Account/Examples.antt =====
-- An SDK in which the public key is the private key with a "P" before it, and the address has an "A".
use symbol_bootstrap.Base.{◌≡◌, refl, true, false, Option, none, some, [], ◌∷◌, ◌++◌, inl, inr}
use symbol_bootstrap.Base.Text.{Text, text, text_eq, to_upper_case}
use symbol_bootstrap.Base.Result.{returned}
use symbol_bootstrap.Crypto.{prompt_main, get_private_key_security_mode}
use symbol_bootstrap.Account.{
  Keys, Sdk, AnyAccount, account, public_account, ConfigAccount, to_config_account, to_account,
  to_config_account_from_keys, main, AccountResolver, resolve_generate_error_message, resolve_known,
  resolve_account,
}
use symbol_bootstrap.Account.Node.{
  KeyPreset, NodePreset, NodeAccount, resolve_roles, join, resolve_key, resolve_key_if,
  resolve_node_accounts,
}
use symbol_bootstrap.Account.Resolution.{IsResolved, resolve_account-provided}
use symbol_bootstrap.Account.Resolver.{default_resolver, HasEntered, ask_private_key-ends}

abbrev keys : Text → Keys
keys t = record { private_key = t; public_key = text "P" ++ t; address = text "AP" ++ t }

abbrev sdk : Sdk
sdk = record {
  create_from_private_key = λ t. returned (keys t);
  create_from_public_key = λ t. returned (record { public_key = t; address = text "A" ++ t });
}

abbrev resolver : AccountResolver
resolver = default_resolver sdk (keys (text "9"))

-- The private key is stored, and only the public key is provided.
abbrev stored : Option ConfigAccount
stored = some (to_config_account (account (keys (text "1"))))

abbrev public_one : AnyAccount
public_one = public_account (record { public_key = text "P1"; address = text "AP1" })

abbrev provided : Option ConfigAccount
provided = some (to_config_account public_one)

provided_result :
    resolve_account sdk resolver prompt_main main stored provided
    ≡ returned (to_config_account (account (keys (text "1"))))
unfolding resolve_account resolve_known to_account to_config_account text_eq to_upper_case
provided_result = refl

ask_private_key-ends_example : HasEntered sdk (text "P1") (text "" ∷ text "2" ∷ text "1" ∷ [])
unfolding text_eq to_upper_case
ask_private_key-ends_example =
    ask_private_key-ends sdk (text "P1") (text "" ∷ text "2" ∷ []) [] (text "1") (keys (text "1"))
      (inl refl, (inr (keys (text "2"), refl), tt)) refl refl refl

abbrev no_keys : KeyPreset
no_keys = record { public_key = none; private_key = none }

abbrev preset : NodePreset
preset = record {
  name = some (text "node");
  friendly_name = none;
  roles = none;
  syncsource = true;
  api = false;
  is_voting = true;
  harvesting = false;
  node_use_remote_account = true;
  main_keys = record { public_key = none; private_key = some (text "1") };
  transport_keys = no_keys;
  remote_keys = no_keys;
  vrf_keys = no_keys;
}

abbrev node : NodeAccount
node = record {
  node_name = text "node";
  friendly_name = text "P1";
  roles = text "Peer,Voting";
  main_account = to_config_account (account (keys (text "1")));
  transport_account = to_config_account (account (keys (text "9")));
  remote_account = some (to_config_account (account (keys (text "9"))));
  vrf_account = none;
}

node_result : resolve_node_accounts sdk resolver none false none 0 preset ≡ returned node
unfolding resolve_node_accounts resolve_key_if resolve_key resolve_account resolve_known
    to_config_account_from_keys to_account to_config_account get_private_key_security_mode
    resolve_generate_error_message default_resolver resolve_roles join text_eq to_upper_case
node_result = refl

resolve_account-provided_example :
    (r : ConfigAccount) × (resolve_account sdk resolver prompt_main main stored provided
      ≡ returned r)
    × IsResolved public_one (some (text "1")) r
unfolding to_account to_config_account text_eq to_upper_case
resolve_account-provided_example =
    resolve_account-provided sdk resolver prompt_main main stored provided
      (some (account (keys (text "1")))) public_one refl refl
