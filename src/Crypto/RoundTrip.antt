-- ===== src/Crypto/RoundTrip.antt =====
-- Decryption undoes encryption.
use symbol_bootstrap.Base.{
  false, Option, none, some, [], ◌∷◌, ◌++◌, ◌≡◌, refl, inl, inr, Bool-cases,
}
use symbol_bootstrap.Base.Text.{Text, starts_with-append, is_empty}
use symbol_bootstrap.Base.Result.{returned}
use symbol_bootstrap.Value.{
  Value, undefined, null, bool, num, str, arr, obj, Items, no_items, element, Fields, no_fields,
  field,
}
use symbol_bootstrap.Crypto.{
  encrypt_prefix, is_encryptable_key_field, is_encryptable_name, encrypt, encrypt_items,
  encrypt_fields, decrypt, decrypt_text, decrypt_items, decrypt_fields,
}

module _ {Seed : Type 0} (seal : Seed → Text → Text → Text × Seed)
    (unseal : Text → Text → Option Text) (password : Text)
    (unseal-seal : (s : Seed) (t : Text) → unseal (seal s t password).0 password ≡ some t) where
  decrypt_text-encrypt_text :
      (s : Seed) (t : Text)
      → is_empty t ≡ false
      → decrypt_text unseal password (encrypt_prefix ++ (seal s t password).0) ≡ returned (str t)
  decrypt_text-encrypt_text s t h = rw (unseal-seal s t, h)

  decrypt-encrypt_str :
      (s : Seed) (name : Option Text) (t : Text)
      → decrypt unseal password name (encrypt seal password s name (str t)).0 ≡ returned (str t)
  unfolding encrypt decrypt is_encryptable_key_field
  decrypt-encrypt_str s name [] = refl
  decrypt-encrypt_str s none (c ∷ t) = refl
  decrypt-encrypt_str s (some name) (c ∷ t) = elim (Bool-cases (is_encryptable_name name)) [
    | inl e ↦ rw e (
        rw (starts_with-append encrypt_prefix (seal s (c ∷ t) password).0, e)
          (decrypt_text-encrypt_text s (c ∷ t) refl))
    | inr e ↦ rw e (rw e)
  ]

  mutual
    unfolding encrypt decrypt

    decrypt-encrypt_at :
        (s : Seed) (name : Option Text) (v : Value)
        → decrypt unseal password name (encrypt seal password s name v).0 ≡ returned v
    decrypt-encrypt_at s name undefined = refl
    decrypt-encrypt_at s name null = refl
    decrypt-encrypt_at s name (bool b) = refl
    decrypt-encrypt_at s name (num n) = refl
    decrypt-encrypt_at s name (str t) = decrypt-encrypt_str s name t
    decrypt-encrypt_at s name (arr vs) = rw (decrypt-encrypt_items s vs)
    decrypt-encrypt_at s name (obj fs) = rw (decrypt-encrypt_fields s fs)

    decrypt-encrypt_items :
        (s : Seed) (vs : Items)
        → decrypt_items unseal password (encrypt_items seal password s vs).0 ≡ returned vs
    decrypt-encrypt_items s no_items = refl
    decrypt-encrypt_items s (element v vs) =
        rw (decrypt-encrypt_at s none v)
          (rw (decrypt-encrypt_items (encrypt seal password s none v).1 vs))

    decrypt-encrypt_fields :
        (s : Seed) (fs : Fields)
        → decrypt_fields unseal password (encrypt_fields seal password s fs).0 ≡ returned fs
    decrypt-encrypt_fields s no_fields = refl
    decrypt-encrypt_fields s (field name v fs) =
        rw (decrypt-encrypt_at s (some name) v)
          (rw (decrypt-encrypt_fields (encrypt seal password s (some name) v).1 fs))

  -- Where the SDK decrypts what it encrypted, with the same password and whatever the salt,
  -- decrypting an encrypted value gives that value back.
  pub decrypt-encrypt :
      (s : Seed) (v : Value)
      → decrypt unseal password none (encrypt seal password s none v).0 ≡ returned v
  decrypt-encrypt s v = decrypt-encrypt_at s none v
