-- ===== src/Yaml/RoundTrip.antt =====
-- What `loadYaml` reads of a file that `writeYaml` wrote.
use symbol_bootstrap.Base.{
  ◌≤◌, ◌<◌, false, Option, none, some, [], ◌∷◌, ◌≡◌, refl, ◌∙◌, arith, length, lt→ltb,
}
use symbol_bootstrap.Base.Text.{Text, text_eq_refl, is_empty}
use symbol_bootstrap.Base.Result.{Result, returned, raised, known_error, ◌>>=◌}
use symbol_bootstrap.Value.{Value}
use symbol_bootstrap.Crypto.{encrypt}
use symbol_bootstrap.Crypto.Secrets.{secrets}
use symbol_bootstrap.Crypto.RoundTrip.{decrypt-encrypt}
use symbol_bootstrap.Crypto.Counting.{encrypted_count-encrypt}
use symbol_bootstrap.Yaml.{
  Password, password, not_given, Files, validate_password, write_text_file, load_file_as_text,
  sealed_object, write_yaml, opened_object, load_yaml,
}

validate_password_long : (p : Text) → 4 ≤ length p → validate_password p ≡ returned p
unfolding validate_password
validate_password_long p h = ground arith

is_empty_long : (p : Text) → 4 ≤ length p → is_empty p ≡ false
is_empty_long [] h = absurd (omega arith)
is_empty_long (c ∷ p) h = refl

pub load_file-write_text_file :
    (files : Files) (path t : Text)
    → load_file_as_text (write_text_file files path t) path ≡ returned t
unfolding write_text_file load_file_as_text
load_file-write_text_file files path t = rw (text_eq_refl path, load_file_as_text)

module _ {Seed : Type 0} (seal : Seed → Text → Text → Text × Seed)
    (unseal : Text → Text → Option Text) (dump : Value → Text) (load : Text → Result Value)
    (unseal-seal : (s : Seed) (t p : Text) → unseal (seal s t p).0 p ≡ some t) (s : Seed)
    (files : Files) (path : Text) (object : Value) (p : Text) (long : 4 ≤ length p)
    (load-dump : load (dump (encrypt seal p s none object).0)
      ≡ returned (encrypt seal p s none object).0) where
  sealed_lem : sealed_object seal s object (password p) ≡ returned (encrypt seal p s none object).0
  unfolding sealed_object
  sealed_lem = rw (is_empty_long p long) (rw (validate_password_long p long))

  opened_lem : opened_object unseal (encrypt seal p s none object).0 (password p) ≡ returned object
  unfolding opened_object
  opened_lem = rw (is_empty_long p long) (
      rw (validate_password_long p long)
        (rw (decrypt-encrypt seal unseal p (λ u t. unseal-seal u t p) s object)))

  -- What any later load of that file comes to.
  load-write :
      (pass : Password)
      → (write_yaml seal dump s files path object (password p) >>= λ after.
          load_yaml unseal load after path pass)
        ≡ opened_object unseal (encrypt seal p s none object).0 pass
  unfolding write_yaml load_yaml
  load-write pass = rw sealed_lem (
      rw (load_file-write_text_file files path (dump (encrypt seal p s none object).0))
        (rw load-dump))

  -- A file that is written with a password of four characters or more, and loaded with it, gives
  -- the object that was written, where the SDK decrypts what it encrypted and js-yaml loads
  -- what it dumped.
  pub load_yaml-write_yaml :
      (write_yaml seal dump s files path object (password p) >>= λ after.
      load_yaml unseal load after path (password p))
      ≡ returned object
  load_yaml-write_yaml = load-write (password p) ∙ opened_lem

  -- Under the same assumptions, loading without a password a file that was written with one, and
  -- that holds at least one private key, is a known error.
  pub load_yaml_needs_password :
      0 < secrets none object
      → (write_yaml seal dump s files path object (password p) >>= λ after.
          load_yaml unseal load after path not_given)
        ≡ raised (known_error "File seems to be encrypted but no password has been provided.")
  unfolding opened_object
  load_yaml_needs_password h =
      load-write not_given
      ∙ rw (encrypted_count-encrypt seal p s object) (rw (lt→ltb 0 (secrets none object) h))
