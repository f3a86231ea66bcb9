-- ===== src/Crypto.antt =====
-- src/service/CryptoUtils.ts: the encryption of the private keys in a preset or an addresses file,
-- and their removal. `Crypto.encrypt` and `Crypto.decrypt` of symbol-sdk are the parameters `seal`,
-- which draws its salt from a seed, and `unseal`, which is `none` where the SDK throws.
-- `isArray`, `isObject`, `mapValues`, `pickBy` and `sum` of lodash are the recursion itself.
pub mod Secrets
pub mod RoundTrip
pub mod Counting
pub mod Kept
pub mod Removal
mod Examples
use symbol_bootstrap.Base.{
  ℕ, ◌+◌, String, Bool, true, false, not, ◌&&◌, ◌||◌, Option, none, some, List, [], ◌∷◌, ◌++◌, any,
  length, find?, if◌then◌else◌,
}
use symbol_bootstrap.Base.Text.{
  Text, text, text_eq, to_lower_case, starts_with, ends_with, contains, substring, is_empty,
}
use symbol_bootstrap.Base.Result.{Result, returned, raised, known_error, error, ◌>>=◌}
use symbol_bootstrap.Value.{
  Value, undefined, null, bool, num, str, arr, obj, Items, no_items, element, Fields, no_fields,
  field,
}

abbrev pub encrypt_prefix : Text
encrypt_prefix = text "ENCRYPTED:"

abbrev pub encryptable_keys : List Text
encryptable_keys = text "privateKey" ∷ text "restSSLKeyBase64" ∷ text "privateFileContent" ∷ []

-- The test of `isEncryptableKeyField` on the field's name.
unfoldable pub is_encryptable_name : Text → Bool
is_encryptable_name name =
    not (is_empty name)
    && any (λ key. ends_with (to_lower_case name) (to_lower_case key)) encryptable_keys

unfoldable pub is_encryptable_key_field : Value → Option Text → Bool
is_encryptable_key_field (str t) (some name) = is_encryptable_name name
is_encryptable_key_field (str t) none = false
is_encryptable_key_field _ _ = false

module _ {Seed : Type 0} (seal : Seed → Text → Text → Text × Seed) (password : Text) where
  abbrev pub encrypt_text : Seed → Text → Value × Seed
  encrypt_text s t = let (c, s') = seal s t password in (str (encrypt_prefix ++ c), s')

  unfoldable mutual
    pub encrypt : Seed → Option Text → Value → Value × Seed
    encrypt s name (arr vs) = let (vs', s') = encrypt_items s vs in (arr vs', s')
    encrypt s name (obj fs) = let (fs', s') = encrypt_fields s fs in (obj fs', s')
    encrypt s name (str t) =
        if is_empty t
        then (str t, s)
        else if is_encryptable_key_field (str t) name
        then encrypt_text s t
        else (str t, s)
    encrypt s name v = (v, s)

    pub encrypt_items : Seed → Items → Items × Seed
    encrypt_items s no_items = (no_items, s)
    encrypt_items s (element v vs) =
        let (v', s') = encrypt s none v in
        let (vs', s'') = encrypt_items s' vs in (element v' vs', s'')

    pub encrypt_fields : Seed → Fields → Fields × Seed
    encrypt_fields s no_fields = (no_fields, s)
    encrypt_fields s (field name v fs) =
        let (v', s') = encrypt s (some name) v in
        let (fs', s'') = encrypt_fields s' fs in (field name v' fs', s'')

module _ (unseal : Text → Text → Option Text) (password : Text) where
  abbrev pub opened : Option Text → Result Value
  opened none = raised (error "Value could not be decrypted!")
  opened (some t) =
      if is_empty t then raised (error "Value could not be decrypted!") else returned (str t)

  abbrev pub decrypt_text : Text → Result Value
  decrypt_text t = opened (unseal (substring t (length encrypt_prefix)) password)

  unfoldable mutual
    pub decrypt : Option Text → Value → Result Value
    decrypt name (arr vs) = do vs' ← decrypt_items vs; returned (arr vs')
    decrypt name (obj fs) = do fs' ← decrypt_fields fs; returned (obj fs')
    decrypt name (str t) =
        if is_empty t
        then returned (str t)
        else if is_encryptable_key_field (str t) name && starts_with t encrypt_prefix
        then decrypt_text t
        else returned (str t)
    decrypt name v = returned v

    pub decrypt_items : Items → Result Items
    decrypt_items no_items = returned no_items
    decrypt_items (element v vs) = do
      v' ← decrypt none v
      vs' ← decrypt_items vs
      returned (element v' vs')

    pub decrypt_fields : Fields → Result Fields
    decrypt_fields no_fields = returned no_fields
    decrypt_fields (field name v fs) = do
      v' ← decrypt (some name) v
      fs' ← decrypt_fields fs
      returned (field name v' fs')

unfoldable mutual
  pub encrypted_count : Option Text → Value → ℕ
  encrypted_count name (arr vs) = encrypted_count_items vs
  encrypted_count name (obj fs) = encrypted_count_fields fs
  encrypted_count name (str t) =
      if is_empty t
      then 0
      else if is_encryptable_key_field (str t) name && starts_with t encrypt_prefix
      then 1
      else 0
  encrypted_count name v = 0

  pub encrypted_count_items : Items → ℕ
  encrypted_count_items no_items = 0
  encrypted_count_items (element v vs) = encrypted_count none v + encrypted_count_items vs

  pub encrypted_count_fields : Fields → ℕ
  encrypted_count_fields no_fields = 0
  encrypted_count_fields (field name v fs) =
      encrypted_count (some name) v + encrypted_count_fields fs

-- `find`, whose result is falsy where the first name that fits is empty.
unfoldable pub finds_name : List Text → Text → Bool
finds_name [] name = false
finds_name (b ∷ bs) name =
    let rest = finds_name bs name in
    if contains (to_lower_case name) (to_lower_case b) then not (is_empty b) else rest

unfoldable pub is_blacklisted : List Text → Text → Bool
is_blacklisted [] name = true
is_blacklisted (n ∷ ns) name = finds_name (n ∷ ns) name

abbrev pub inner_blacklist : Bool → List Text → List Text
inner_blacklist b names = if b then [] else names

unfoldable mutual
  pub remove_private_keys : List Text → Value → Value
  remove_private_keys names (arr vs) = arr (remove_private_keys_items names vs)
  remove_private_keys names (obj fs) = obj (remove_private_keys_fields names fs)
  remove_private_keys names v = v

  pub remove_private_keys_items : List Text → Items → Items
  remove_private_keys_items names no_items = no_items
  remove_private_keys_items names (element v vs) =
      element (remove_private_keys names v) (remove_private_keys_items names vs)

  pub remove_private_keys_fields : List Text → Fields → Fields
  remove_private_keys_fields names no_fields = no_fields
  remove_private_keys_fields names (field name v fs) =
      let rest = remove_private_keys_fields names fs in
      let b = is_blacklisted names name in
      if not b || not (is_encryptable_key_field v (some name))
      then field name (remove_private_keys (inner_blacklist b names) v) rest
      else rest

-- `PrivateKeySecurityMode` of src/model/ConfigPreset.ts.
pub data PrivateKeySecurityMode : Type 0 where
  encrypt_all prompt_main prompt_main_transport prompt_all : PrivateKeySecurityMode

abbrev pub security_modes : List (Text × PrivateKeySecurityMode)
security_modes =
    (text "ENCRYPT", encrypt_all)
    ∷ (text "PROMPT_MAIN", prompt_main)
    ∷ (text "PROMPT_MAIN_TRANSPORT", prompt_main_transport)
    ∷ (text "PROMPT_ALL", prompt_all)
    ∷ []

abbrev found_mode : Option (Text × PrivateKeySecurityMode) → Result PrivateKeySecurityMode
found_mode none = raised (known_error "is not a valid Security Mode")
found_mode (some (name, mode)) = returned mode

-- `none` is the undefined value.
unfoldable pub get_private_key_security_mode : Option Text → Result PrivateKeySecurityMode
get_private_key_security_mode none = returned encrypt_all
get_private_key_security_mode (some value) =
    if is_empty value
    then returned encrypt_all
    else found_mode (find? (λ m. text_eq (to_lower_case m.0) (to_lower_case value)) security_modes)

-- The names that the mode's call of `removePrivateKeys` passes.
abbrev pub blacklist_names : PrivateKeySecurityMode → List Text
blacklist_names prompt_main = text "main" ∷ text "voting" ∷ []
blacklist_names prompt_main_transport = text "main" ∷ text "transport" ∷ text "voting" ∷ []
blacklist_names prompt_all = []
blacklist_names encrypt_all = text "voting" ∷ []

unfoldable pub remove_private_keys_according_to_security_mode :
    Value → PrivateKeySecurityMode → Value
remove_private_keys_according_to_security_mode v mode = remove_private_keys (blacklist_names mode) v
