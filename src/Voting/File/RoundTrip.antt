-- ===== src/Voting/File/RoundTrip.antt =====
-- A voting key file that was created is read back.
use symbol_bootstrap.Base.{
  ℕ, ◌+◌, ◌-◌, ◌*◌, ◌<◌, ◌≤◌, ◌≡◌, refl, ap, sym, ◌∙◌, List, [], ◌∷◌, ◌++◌, length, take, drop,
  replicate, arith, All, length-append, take-append, drop-append, append_assoc, le→leb, ==_refl,
}
use symbol_bootstrap.Base.Text.{Text}
use symbol_bootstrap.Base.Result.{returned, ◌>>=◌}
use symbol_bootstrap.Voting.File.{
  Bytes, Convert, KeyPair, Implementation, header_size, item_size, slice, create_voting_file,
  read_voting_file,
}
use symbol_bootstrap.Voting.File.Layout.{
  ConvertLaws, ImplementationLaws, entries, layout, create_voting_file-eq-layout,
}

-- The bytes of `mid`, cut out of a longer array.
take-drop-middle {ℓ} :
    {A : Type ℓ} (pre mid post : List A) (i n : ℕ)
    → i ≡ length pre
    → n ≡ length mid
    → take n (drop i (pre ++ (mid ++ post))) ≡ mid
take-drop-middle pre mid post i n e h =
    rw (e, h) (rw (drop-append pre (mid ++ post)) (take-append mid post))

module _ (c : Convert) (crypto : Implementation) (limit : ℕ) (laws : ConvertLaws c limit)
    (sizes : ImplementationLaws crypto) where
  open c use {number_to_bytes, bytes_to_number, hex_to_bytes, bytes_to_hex}
  open crypto use {create_key_pair_from_private_key, sign}

  length-entries :
      (root : KeyPair) (epoch : ℕ) (keys : List Bytes)
      → All (λ k. length k ≡ 32) keys
      → length (entries c crypto limit laws sizes root epoch keys) ≡ length keys * item_size
  length-entries root epoch [] hs = omega arith
  length-entries root epoch (k ∷ keys) (h, hs) =
      let signature =
        sign root ((create_key_pair_from_private_key k).public_key ++ number_to_bytes epoch) in
      omega (
        arith,
        h,
        length-append {0} k signature,
        length-append {0} (k ++ signature)
            (entries c crypto limit laws sizes root (epoch - 1) keys),
        sizes.length_signature root
            ((create_key_pair_from_private_key k).public_key ++ number_to_bytes epoch),
        length-entries root (epoch - 1) keys hs,
      )

  -- The file as its start epoch, its end epoch, sixteen bytes, the public key, and the rest.
  layout-parts :
      (root : KeyPair) (a b : ℕ) (keys : List Bytes)
      → layout c crypto limit laws sizes root a b keys
        ≡ number_to_bytes a
          ++ (number_to_bytes b
              ++ ((replicate 8 255 ++ replicate 8 255)
                  ++ (root.public_key
                      ++ ((number_to_bytes a ++ number_to_bytes b)
                          ++ entries c crypto limit laws sizes root b keys))))
  layout-parts root a b keys = simp append_assoc

  length-layout :
      (root : KeyPair) (a b : ℕ) (keys : List Bytes)
      → length root.public_key ≡ 32
      → All (λ k. length k ≡ 32) keys
      → length (layout c crypto limit laws sizes root a b keys)
        ≡ header_size + length keys * item_size
  length-layout root a b keys h hs = rw (layout-parts root a b keys) (
      simp length-append (
        omega
          (arith, h, laws.length_number a, laws.length_number b, length-entries root b keys hs)))

  read_of_parts :
      (file : Bytes) (a b : ℕ) (p : Text)
      → bytes_to_number (slice 0 8 file) ≡ a
      → bytes_to_number (slice 8 16 file) ≡ b
      → bytes_to_hex (slice 32 64 file) ≡ p
      → a ≤ b + 1
      → length file ≡ header_size + (b + 1 - a) * item_size
      → read_voting_file c file
        ≡ returned (record { start_epoch = a; end_epoch = b; public_key = p })
  unfolding read_voting_file
  read_of_parts file a b p ea eb ep h n =
      rw ea (rw eb (rw ep (rw (le→leb a (b + 1) h) (rw n (rw ==_refl)))))

  pub read-layout :
      (root : KeyPair) (a b : ℕ) (keys : List Bytes)
      → length root.public_key ≡ 32
      → a < limit
      → b < limit
      → a ≤ b + 1
      → length keys ≡ b + 1 - a
      → All (λ k. length k ≡ 32) keys
      → read_voting_file c (layout c crypto limit laws sizes root a b keys)
        ≡ returned
            (record { start_epoch = a; end_epoch = b; public_key = bytes_to_hex root.public_key })
  read-layout root a b keys h la lb ab n hs =
      let na = number_to_bytes a in
      let nb = number_to_bytes b in
      let ids : Bytes = replicate 8 255 ++ replicate 8 255 in
      let tail : Bytes = (na ++ nb) ++ entries c crypto limit laws sizes root b keys in
      let ea : length na ≡ 8 = laws.length_number a in
      let eb : length nb ≡ 8 = laws.length_number b in
      let whole : length (layout c crypto limit laws sizes root a b keys)
          ≡ header_size + (b + 1 - a) * item_size =
        length-layout root a b keys h hs ∙ ap (λ k. header_size + k * item_size) n in
      let split : layout c crypto limit laws sizes root a b keys
          ≡ (na ++ nb ++ ids) ++ (root.public_key ++ tail) =
        simp append_assoc in
      read_of_parts (layout c crypto limit laws sizes root a b keys) a b
        (bytes_to_hex root.public_key)
        (rw (layout-parts root a b keys) (
          ap bytes_to_number
            (take-drop-middle [] na (nb ++ (ids ++ (root.public_key ++ tail))) 0 8 refl (sym ea))
          ∙ laws.number_back a la))
        (rw (layout-parts root a b keys) (
          ap bytes_to_number
            (take-drop-middle na nb (ids ++ (root.public_key ++ tail)) 8 8 (sym ea) (sym eb))
          ∙ laws.number_back b lb))
        (rw split (
          ap bytes_to_hex (
            take-drop-middle (na ++ nb ++ ids) root.public_key tail 32 32
              (omega (arith, ea, eb, length-append {0} na nb, length-append {0} (na ++ nb) ids))
              (sym h))))
        ab whole

  -- A voting key file that is created for the epochs from `a` to `b`, both of which the SDK can
  -- convert, with a bound key of 32 bytes for each of them, is read back as those epochs and the
  -- public key of the given secret.
  pub read_voting_file-create_voting_file :
      (secret : Text) (a b : ℕ) (keys : List Bytes)
      → a < limit
      → b < limit
      → a ≤ b + 1
      → length keys ≡ b + 1 - a
      → All (λ k. length k ≡ 32) keys
      → (create_voting_file c crypto secret a b keys >>= read_voting_file c)
        ≡ returned (record {
          start_epoch = a;
          end_epoch = b;
          public_key =
              bytes_to_hex (create_key_pair_from_private_key (hex_to_bytes secret)).public_key;
        })
  read_voting_file-create_voting_file secret a b keys la lb ab n hs =
      rw (create_voting_file-eq-layout c crypto limit laws sizes secret a b keys ab n hs) (
        read-layout (create_key_pair_from_private_key (hex_to_bytes secret)) a b keys
          (sizes.length_public_key _) la lb ab n hs)
