-- ===== src/Account.antt =====
-- The accounts of a node: src/service/ConfigurationUtils.ts, `resolveAccount` and
-- `resolveNodeAccounts` of src/service/AddressesService.ts. Accounts are made by symbol-sdk, for the
-- network in question: the parameter `Sdk`. Key texts that may be undefined are optional.
pub mod Resolver
pub mod Resolution
pub mod Modes
pub mod Node
mod Examples
use symbol_bootstrap.Base.{
  ℕ, String, Bool, true, false, not, ◌&&◌, ◌||◌, Option, none, some, List, [], ◌∷◌, ◌++◌, take,
  or_first, if◌then◌else◌,
}
use symbol_bootstrap.Base.Text.{Text, text, text_eq, to_upper_case, is_empty}
use symbol_bootstrap.Base.Result.{Result, returned, raised, error, guard, ◌>>=◌, ◌>>◌}
use symbol_bootstrap.Crypto.{
  PrivateKeySecurityMode, encrypt_all, prompt_main, prompt_main_transport, prompt_all,
}

-- `Account` of symbol-sdk.
pub record Keys : Type 0 where
  pub private_key : Text
  pub public_key : Text
  pub address : Text

-- `PublicAccount` of symbol-sdk.
pub record PublicKeys : Type 0 where
  pub public_key : Text
  pub address : Text

-- `Account.createFromPrivateKey` and `PublicAccount.createFromPublicKey`, which throw on a text that
-- is not a key.
pub record Sdk : Type 0 where
  pub create_from_private_key : Text → Result Keys
  pub create_from_public_key : Text → Result PublicKeys

-- `PublicAccount | Account`
pub data AnyAccount : Type 0 where
  account : Keys → AnyAccount
  public_account : PublicKeys → AnyAccount

pub record ConfigAccount : Type 0 where
  pub private_key : Option Text
  pub public_key : Text
  pub address : Text

-- A text by which an `if` goes into its first branch.
abbrev pub truthy : Option Text → Option Text
truthy none = none
truthy (some t) = if is_empty t then none else some t

abbrev pub upper : Option Text → Option Text
upper none = none
upper (some t) = some (to_upper_case t)

unfoldable pub to_config_account : AnyAccount → ConfigAccount
to_config_account (account k) = record {
  private_key = some k.private_key;
  public_key = k.public_key;
  address = k.address;
}
to_config_account (public_account k) = record {
  private_key = none;
  public_key = k.public_key;
  address = k.address;
}

abbrev pub is_expected : Option Text → Keys → Bool
is_expected none k = true
is_expected (some t) k = text_eq (to_upper_case k.public_key) (to_upper_case t)

module _ (sdk : Sdk) where
  open sdk use {create_from_private_key, create_from_public_key}

  abbrev to_account_of : Option Text → Option Text → Result (Option AnyAccount)
  to_account_of public_key (some private_key) = do
    k ← create_from_private_key private_key
    guard (is_expected public_key k) (error "Invalid provided public key/private key!")
    returned (some (account k))
  to_account_of (some public_key) none = do
    k ← create_from_public_key public_key
    returned (some (public_account k))
  to_account_of none none = returned none

  unfoldable pub to_account : Option Text → Option Text → Result (Option AnyAccount)
  to_account public_key private_key = to_account_of (truthy public_key) (truthy private_key)

  abbrev pub to_config : Option AnyAccount → Option ConfigAccount
  to_config none = none
  to_config (some a) = some (to_config_account a)

  unfoldable pub to_config_account_from_keys :
      Option Text → Option Text → Result (Option ConfigAccount)
  to_config_account_from_keys public_key private_key = do
    a ← to_account public_key private_key
    returned (to_config a)

pub data KeyName : Type 0 where
  main remote transport voting vrf nemesis_account service_provider : KeyName

abbrev pub is_main : KeyName → Bool
is_main k = elim k [ main ↦ true | _ ↦ false ]

abbrev pub is_transport : KeyName → Bool
is_transport k = elim k [ transport ↦ true | _ ↦ false ]

abbrev pub is_prompt_all : PrivateKeySecurityMode → Bool
is_prompt_all m = elim m [ prompt_all ↦ true | _ ↦ false ]

abbrev pub is_prompt_main_transport : PrivateKeySecurityMode → Bool
is_prompt_main_transport m = elim m [ prompt_main_transport ↦ true | _ ↦ false ]

abbrev pub is_prompt_main : PrivateKeySecurityMode → Bool
is_prompt_main m = elim m [ prompt_main ↦ true | _ ↦ false ]

unfoldable pub resolve_generate_error_message : KeyName → PrivateKeySecurityMode → Option String
resolve_generate_error_message key mode =
    if is_main key && (is_prompt_all mode || is_prompt_main_transport mode || is_prompt_main mode)
    then some "Account cannot be generated: use ENCRYPT"
    else if is_transport key && (is_prompt_all mode || is_prompt_main_transport mode)
    then some "Account cannot be generated: use ENCRYPT or PROMPT_MAIN"
    else if is_prompt_all mode
    then some "Account cannot be generated: use ENCRYPT, PROMPT_MAIN or PROMPT_MAIN_TRANSPORT"
    else none

-- `AccountResolver`: the account that is wanted, its key name and the message when it must not be
-- generated.
abbrev pub AccountResolver : Type 0
AccountResolver = Option ConfigAccount → KeyName → Option String → Result Keys

-- The public key and the address of an account.
abbrev pub public_key_of : AnyAccount → Text
public_key_of a = (to_config_account a).public_key

abbrev pub address_of : AnyAccount → Text
address_of (account k) = k.address
address_of (public_account k) = k.address

abbrev pub private_key_of : AnyAccount → Option Text
private_key_of (account k) = some k.private_key
private_key_of (public_account k) = none

-- `{ ...a, ...b }`
abbrev pub spread : ConfigAccount → ConfigAccount → ConfigAccount
spread a b = record {
  private_key = or_first b.private_key a.private_key;
  public_key = b.public_key;
  address = b.address;
}

abbrev pub public_part : Option ConfigAccount → Option Text
public_part none = none
public_part (some a) = some a.public_key

abbrev pub private_part : Option ConfigAccount → Option Text
private_part none = none
private_part (some a) = a.private_key

module _ (sdk : Sdk) (resolver : AccountResolver) where
  -- The body of `resolveAccount` behind the two accounts.
  unfoldable pub resolve_known :
      PrivateKeySecurityMode
      → KeyName
      → Option ConfigAccount
      → Option AnyAccount
      → Option AnyAccount
      → Result ConfigAccount
  resolve_known mode key wanted (some old) (some new) =
      if text_eq (address_of old) (address_of new)
      then returned (spread (to_config_account old) (to_config_account new))
      else returned (to_config_account new)
  resolve_known mode key wanted (some old) none = returned (to_config_account old)
  resolve_known mode key wanted none (some new) = returned (to_config_account new)
  resolve_known mode key wanted none none = do
    k ← resolver wanted key (resolve_generate_error_message key mode)
    returned (to_config_account (account k))

  unfoldable pub resolve_account :
      PrivateKeySecurityMode
      → KeyName
      → Option ConfigAccount
      → Option ConfigAccount
      → Result ConfigAccount
  resolve_account mode key stored provided = do
    old ← to_account sdk (upper (public_part stored)) (upper (private_part stored))
    new ← to_account sdk (upper (public_part provided)) (upper (private_part provided))
    resolve_known mode key (or_first provided stored) old new
