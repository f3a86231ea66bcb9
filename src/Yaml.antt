-- ===== src/Yaml.antt =====
-- src/service/YamlUtils.ts and `validatePassword` of src/service/Utils.ts: yaml files with their
-- private keys encrypted. The files are a function from paths to texts. `yaml.dump` and `yaml.load`
-- of js-yaml are the parameters `dump` and `load`.
pub mod RoundTrip
mod Examples
use symbol_bootstrap.Base.{
  ℕ, Bool, true, false, ◌&&◌, ◌||◌, Option, none, some, List, [], ◌∷◌, length, ltb, if◌then◌else◌,
}
use symbol_bootstrap.Base.Text.{Text, text, text_eq, to_lower_case, ends_with, is_empty}
use symbol_bootstrap.Base.Result.{Result, returned, raised, error, known_error, guard, ◌>>=◌, ◌>>◌}
use symbol_bootstrap.Value.{
  Value, undefined, arr, obj, Items, no_items, element, Fields, no_fields, field,
}
use symbol_bootstrap.Crypto.{encrypt, decrypt, encrypted_count}

-- `Password`: a text, false, or undefined.
pub data Password : Type 0 where
  password : Text → Password
  no_password : Password
  not_given : Password

unfoldable pub is_yml_file : Text → Bool
is_yml_file s =
    ends_with (to_lower_case s) (text ".yml") || ends_with (to_lower_case s) (text ".yaml")

unfoldable pub validate_password : Text → Result Text
validate_password p =
    if ltb (length p) 4 then raised (known_error "Password is too short.") else returned p

abbrev pub Files : Type 0
Files = Text → Option Text

unfoldable pub write_text_file : Files → Text → Text → Files
write_text_file files path t = λ q. if text_eq path q then some t else files q

-- A file that is not there makes `readFileSync` throw.
unfoldable pub load_file_as_text : Files → Text → Result Text
load_file_as_text files path = elim (files path) [
  | none ↦ raised (error "ENOENT")
  | some t ↦ returned t
]

abbrev as_known : Result Value → Result Value
as_known (returned v) = returned v
as_known (raised e) = raised (known_error "Cannot decrypt file.")

module _ {Seed : Type 0} (seal : Seed → Text → Text → Text × Seed) where
  -- The object that `writeYaml` dumps.
  unfoldable pub sealed_object : Seed → Value → Password → Result Value
  unfolding validate_password
  sealed_object s object (password p) =
      if is_empty p
      then returned object
      else do q ← validate_password p; returned (encrypt seal q s none object).0
  sealed_object s object _ = returned object

  unfoldable pub write_yaml : (Value → Text) → Seed → Files → Text → Value → Password → Result Files
  unfolding write_text_file sealed_object
  write_yaml dump s files path object pass = do
    sealed ← sealed_object s object pass
    returned (write_text_file files path (dump sealed))

abbrev checked : Value → Result Value
checked object =
    if ltb 0 (encrypted_count none object)
    then raised (known_error "File seems to be encrypted but no password has been provided.")
    else returned object

module _ (unseal : Text → Text → Option Text) where
  -- The part of `loadYaml` behind the parsing.
  unfoldable pub opened_object : Value → Password → Result Value
  unfolding validate_password
  opened_object object (password p) =
      if is_empty p
      then checked object
      else do q ← validate_password p; as_known (decrypt unseal q none object)
  opened_object object no_password = returned object
  opened_object object not_given = checked object

  unfoldable pub load_yaml : (Text → Result Value) → Files → Text → Password → Result Value
  unfolding load_file_as_text opened_object
  load_yaml load files path pass = do
    t ← load_file_as_text files path
    object ← load t
    opened_object object pass
