-- ===== src/Voting/File/Examples.antt =====
-- The voting key file at three epochs, with a converter of one-byte epochs.
use symbol_bootstrap.Base.{ℕ, ◌≡◌, refl, List, [], ◌∷◌, replicate, arith}
use symbol_bootstrap.Base.Text.{text}
use symbol_bootstrap.Base.Result.{returned, ◌>>=◌}
use symbol_bootstrap.Voting.File.{
  Bytes, Convert, Implementation, create_voting_file, read_voting_file,
}
use symbol_bootstrap.Voting.File.Layout.{
  ConvertLaws, ImplementationLaws, layout, create_voting_file-eq-layout,
}
use symbol_bootstrap.Voting.File.RoundTrip.{read_voting_file-create_voting_file}

abbrev pub first_byte : Bytes → ℕ
first_byte [] = 0
first_byte (b ∷ bs) = b

-- The first byte holds the epoch, and every hexadecimal text is the invalid id.
abbrev pub small_convert : Convert
small_convert = record {
  number_to_bytes = λ n. n ∷ replicate 7 0;
  bytes_to_number = first_byte;
  hex_to_bytes = λ t. replicate 8 255;
  bytes_to_hex = λ b. b;
}

abbrev pub flat_crypto : Implementation
flat_crypto = record {
  create_key_pair_from_private_key = λ k. record { private_key = k; public_key = replicate 32 7 };
  sign = λ p m. replicate 64 9;
}

pub small_convert_laws : ConvertLaws small_convert 256
small_convert_laws = record {
  length_number = λ n. refl;
  number_back = λ n h. refl;
  invalid_id = refl;
}

pub flat_crypto_laws : ImplementationLaws flat_crypto
flat_crypto_laws = record { length_public_key = λ k. refl; length_signature = λ p m. refl }

abbrev pub three_keys : List Bytes
three_keys = replicate 32 1 ∷ replicate 32 2 ∷ replicate 32 3 ∷ []

create_voting_file-eq-layout_example :
    create_voting_file small_convert flat_crypto (text "ab") 5 7 three_keys
    ≡ returned (
        layout small_convert flat_crypto 256 small_convert_laws flat_crypto_laws
          (flat_crypto.create_key_pair_from_private_key (replicate 8 255))
          5
          7
          three_keys)
create_voting_file-eq-layout_example =
    create_voting_file-eq-layout small_convert flat_crypto 256 small_convert_laws flat_crypto_laws
      (text "ab") 5 7 three_keys (omega arith) refl (refl, (refl, (refl, tt)))

read_voting_file-create_voting_file_example :
    (create_voting_file small_convert flat_crypto (text "ab") 5 7 three_keys
      >>= read_voting_file small_convert)
    ≡ returned (record { start_epoch = 5; end_epoch = 7; public_key = replicate 32 7 })
read_voting_file-create_voting_file_example =
    read_voting_file-create_voting_file small_convert flat_crypto 256 small_convert_laws
      flat_crypto_laws (text "ab") 5 7 three_keys (omega arith) (omega arith) (omega arith) refl
      (refl, (refl, (refl, tt)))
