-- ===== src/Crypto/Secrets.antt =====
-- What the operations of Crypto are about, said without them: where a text stands in a value, and
-- which places hold a private key.
use symbol_bootstrap.Base.{
  ℕ, ◌+◌, Bool, false, ◌&&◌, List, [], ◌∷◌, ◌≡◌, ◌⊎◌, any, Option, none, some, if◌then◌else◌,
}
use symbol_bootstrap.Base.Text.{Text, is_empty}
use symbol_bootstrap.Value.{
  Value, str, arr, obj, Items, no_items, element, Fields, no_fields, field,
}
use symbol_bootstrap.Crypto.{is_encryptable_name, is_blacklisted}

-- One step into a value: to an entry of an array, or to the field of an object.
pub data Step : Type 0 where
  item : Step
  key : Text → Step

unfoldable mutual
  -- The text `t` stands in the value at the end of the path.
  pub Holds : List Step → Text → Value → Type 0
  Holds [] t (str u) = u ≡ t
  Holds (s ∷ p) t (arr vs) = HoldsItem s p t vs
  Holds (s ∷ p) t (obj fs) = HoldsField s p t fs
  Holds _ t v = ⊥

  pub HoldsItem : Step → List Step → Text → Items → Type 0
  HoldsItem item p t (element v vs) = Holds p t v ⊎ HoldsItem item p t vs
  HoldsItem s p t vs = ⊥

  pub HoldsField : Step → List Step → Text → Fields → Type 0
  HoldsField (key name) p t (field n v fs) = (n ≡ name) × Holds p t v ⊎ HoldsField (key name) p t fs
  HoldsField s p t fs = ⊥

-- The path ends at a field whose name is that of a private key.
abbrev pub ends_at_key : List Step → Bool
ends_at_key [] = false
ends_at_key (item ∷ []) = false
ends_at_key (key name ∷ []) = is_encryptable_name name
ends_at_key (s ∷ r ∷ p) = ends_at_key (r ∷ p)

abbrev pub is_blacklisted_step : List Text → Step → Bool
is_blacklisted_step names item = false
is_blacklisted_step names (key name) = is_blacklisted names name

-- A private key, at or below a field with a blacklisted name.
abbrev pub is_protected : List Text → List Step → Bool
is_protected names p = ends_at_key p && any (is_blacklisted_step names) p

unfoldable mutual
  -- How many private keys a value holds, the empty ones left out.
  pub secrets : Option Text → Value → ℕ
  secrets name (arr vs) = secrets_items vs
  secrets name (obj fs) = secrets_fields fs
  secrets (some name) (str t) = if is_empty t then 0 else if is_encryptable_name name then 1 else 0
  secrets name v = 0

  pub secrets_items : Items → ℕ
  secrets_items no_items = 0
  secrets_items (element v vs) = secrets none v + secrets_items vs

  pub secrets_fields : Fields → ℕ
  secrets_fields no_fields = 0
  secrets_fields (field name v fs) = secrets (some name) v + secrets_fields fs
