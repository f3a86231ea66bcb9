-- ===== src/Crypto/Counting.antt =====
-- What `encryptedCount` counts.
use symbol_bootstrap.Base.{◌+◌, Option, none, some, [], ◌∷◌, ◌≡◌, refl, ap₂, arith}
use symbol_bootstrap.Base.Text.{Text, starts_with-append}
use symbol_bootstrap.Value.{
  Value, undefined, null, bool, num, str, arr, obj, Items, no_items, element, Fields, no_fields,
  field,
}
use symbol_bootstrap.Crypto.{
  encrypt_prefix, is_encryptable_key_field, encrypt, encrypt_items, encrypt_fields, encrypted_count,
  encrypted_count_items, encrypted_count_fields,
}
use symbol_bootstrap.Crypto.Secrets.{secrets, secrets_items, secrets_fields}

module _ {Seed : Type 0} (seal : Seed → Text → Text → Text × Seed) (password : Text) where
  encrypted_count-encrypt_str :
      (s : Seed) (name : Option Text) (t : Text)
      → encrypted_count name (encrypt seal password s name (str t)).0 ≡ secrets name (str t)
  unfolding encrypt encrypted_count is_encryptable_key_field secrets
  encrypted_count-encrypt_str s none [] = refl
  encrypted_count-encrypt_str s (some name) [] = refl
  encrypted_count-encrypt_str s none (c ∷ t) = refl
  encrypted_count-encrypt_str s (some name) (c ∷ t) =
      ground (arith, starts_with-append encrypt_prefix (seal s (c ∷ t) password).0)

  mutual
    unfolding encrypt encrypted_count secrets

    encrypted_count-encrypt_at :
        (s : Seed) (name : Option Text) (v : Value)
        → encrypted_count name (encrypt seal password s name v).0 ≡ secrets name v
    encrypted_count-encrypt_at s name undefined = refl
    encrypted_count-encrypt_at s name null = refl
    encrypted_count-encrypt_at s name (bool b) = refl
    encrypted_count-encrypt_at s name (num n) = refl
    encrypted_count-encrypt_at s name (str t) = encrypted_count-encrypt_str s name t
    encrypted_count-encrypt_at s name (arr vs) = encrypted_count-encrypt_items s vs
    encrypted_count-encrypt_at s name (obj fs) = encrypted_count-encrypt_fields s fs

    encrypted_count-encrypt_items :
        (s : Seed) (vs : Items)
        → encrypted_count_items (encrypt_items seal password s vs).0 ≡ secrets_items vs
    encrypted_count-encrypt_items s no_items = refl
    encrypted_count-encrypt_items s (element v vs) =
        ap₂ ◌+◌ (encrypted_count-encrypt_at s none v)
          (encrypted_count-encrypt_items (encrypt seal password s none v).1 vs)

    encrypted_count-encrypt_fields :
        (s : Seed) (fs : Fields)
        → encrypted_count_fields (encrypt_fields seal password s fs).0 ≡ secrets_fields fs
    encrypted_count-encrypt_fields s no_fields = refl
    encrypted_count-encrypt_fields s (field name v fs) =
        ap₂ ◌+◌ (encrypted_count-encrypt_at s (some name) v)
          (encrypted_count-encrypt_fields (encrypt seal password s (some name) v).1 fs)

  -- After encryption `encryptedCount` is the number of non-empty private keys of the value: each of
  -- them is encrypted, and nothing else is.
  pub encrypted_count-encrypt :
      (s : Seed) (v : Value)
      → encrypted_count none (encrypt seal password s none v).0 ≡ secrets none v
  encrypted_count-encrypt s v = encrypted_count-encrypt_at s none v
