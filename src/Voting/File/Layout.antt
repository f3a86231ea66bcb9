-- ===== src/Voting/File/Layout.antt =====
-- The layout of a voting key file, written as one concatenation, and that `createVotingFile` fills
-- its array with it.
use symbol_bootstrap.Base.{
  ℕ, zero, suc, ◌+◌, ◌-◌, ◌*◌, ◌<◌, ◌≤◌, ◌≡◌, refl, sym, ◌∙◌, some, List, [], ◌∷◌, ◌++◌, length,
  drop, replicate, get_elem?, arith, All, length-append, length-replicate, take-append,
  append_assoc, append-nil, le→leb, le→ltb_false,
}
use symbol_bootstrap.Base.Text.{Text, text}
use symbol_bootstrap.Base.Result.{returned}
use symbol_bootstrap.Voting.File.{
  Bytes, Convert, KeyPair, Implementation, Cursor, insert, header_size, item_size, write_bound_key,
  write_bound_keys, write_header, create_voting_file,
}

-- The documented sizes, and that an epoch below `limit` is read back from its bytes.
pub record ConvertLaws (c : Convert) (limit : ℕ) : Type 0 where
  pub length_number : (n : ℕ) → length (c.number_to_bytes n) ≡ 8
  pub number_back : (n : ℕ) → n < limit → c.bytes_to_number (c.number_to_bytes n) ≡ n
  pub invalid_id : c.hex_to_bytes (text "FFFFFFFFFFFFFFFF") ≡ replicate 8 255

pub record ImplementationLaws (crypto : Implementation) : Type 0 where
  pub length_public_key :
      (k : Bytes) → length (crypto.create_key_pair_from_private_key k).public_key ≡ 32
  pub length_signature : (p : KeyPair) (m : Bytes) → length (crypto.sign p m) ≡ 64

-- An array of which `done` is written, and `left` bytes are not.
abbrev cursor : Bytes → ℕ → Cursor
cursor done left = record { result = done ++ replicate left 0; index = length done }

drop-replicate : (n m : ℕ) → drop n (replicate {A = ℕ} (n + m) 0) ≡ replicate m 0
drop-replicate zero m = rw Prim.Native.Nat.add.zero
drop-replicate (suc n) m = rw Prim.Native.Nat.add.suc (drop-replicate n m)

drop-add {ℓ} : {A : Type ℓ} (xs ys : List A) (n : ℕ) → drop (length xs + n) (xs ++ ys) ≡ drop n ys
drop-add [] ys n = rw Prim.Native.Nat.add.zero
drop-add (x ∷ xs) ys n = rw Prim.Native.Nat.add.suc (drop-add xs ys n)

-- A write at the end of what is written.
insert-cursor :
    (done value : Bytes) (left rest : ℕ)
    → left ≡ length value + rest
    → insert (cursor done left) value ≡ returned (cursor (done ++ value) rest)
unfolding insert
insert-cursor done value left rest h =
    rw
      (le→leb (length done + length value) (length (done ++ replicate left 0))
        (omega (arith, h, length-append done (replicate left 0), length-replicate left zero)))
      (rw (take-append done (replicate left 0)) (
        rw (drop-add done (replicate left 0) (length value))
          (rw h (rw (drop-replicate (length value) rest) (rw (length-append done value))))))

get_elem?-append {ℓ} :
    {A : Type ℓ} (xs : List A) (y : A) (ys : List A) → get_elem? (xs ++ y ∷ ys) (length xs) ≡ some y
get_elem?-append [] y ys = refl
get_elem?-append (x ∷ xs) y ys = get_elem?-append xs y ys

module _ (c : Convert) (crypto : Implementation) (limit : ℕ) (laws : ConvertLaws c limit)
    (sizes : ImplementationLaws crypto) where
  open c use {number_to_bytes, hex_to_bytes}
  open crypto use {create_key_pair_from_private_key, sign}

  abbrev pub entry : KeyPair → Bytes → ℕ → Bytes
  entry root key epoch =
      key ++ sign root ((create_key_pair_from_private_key key).public_key ++ number_to_bytes epoch)

  -- One entry for each epoch, the last epoch first.
  abbrev pub entries : KeyPair → ℕ → List Bytes → Bytes
  entries root epoch [] = []
  entries root epoch (key ∷ keys) = entry root key epoch ++ entries root (epoch - 1) keys

  abbrev pub header : KeyPair → ℕ → ℕ → Bytes
  header root start_epoch end_epoch =
      number_to_bytes start_epoch
      ++ number_to_bytes end_epoch
      ++ replicate 8 255
      ++ replicate 8 255
      ++ root.public_key
      ++ number_to_bytes start_epoch
      ++ number_to_bytes end_epoch

  abbrev pub layout : KeyPair → ℕ → ℕ → List Bytes → Bytes
  layout root start_epoch end_epoch keys =
      header root start_epoch end_epoch ++ entries root end_epoch keys

  write_bound_key-cursor :
      (root : KeyPair) (key : Bytes) (epoch : ℕ) (done : Bytes) (rest : ℕ)
      → length key ≡ 32
      → write_bound_key c crypto root key epoch (cursor done (item_size + rest))
        ≡ returned (cursor (done ++ entry root key epoch) rest)
  unfolding write_bound_key
  write_bound_key-cursor root key epoch done rest h =
      let signature =
        sign root ((create_key_pair_from_private_key key).public_key ++ number_to_bytes epoch) in
      rw h (
        rw (insert-cursor done key (item_size + rest) (64 + rest) (omega (arith, h))) (
          rw
            (insert-cursor (done ++ key) signature (64 + rest) rest
              (omega (arith, sizes.length_signature root _)))
            (rw (append_assoc done key signature))))

  header-cursor :
      (root : KeyPair) (start_epoch end_epoch rest : ℕ)
      → length root.public_key ≡ 32
      → write_header c crypto start_epoch end_epoch root.public_key (cursor [] (header_size + rest))
        ≡ returned (cursor (header root start_epoch end_epoch) rest)
  unfolding write_header
  header-cursor root a b rest h =
      let na = number_to_bytes a in
      let nb = number_to_bytes b in
      let la = laws.length_number a in
      let lb = laws.length_number b in
      let no_id : Bytes = replicate 8 255 in
      rw laws.invalid_id (
        rw (insert-cursor [] na (header_size + rest) (72 + rest) (omega (arith, la))) (
          rw (insert-cursor na nb (72 + rest) (64 + rest) (omega (arith, lb))) (
            rw (insert-cursor (na ++ nb) no_id (64 + rest) (56 + rest) (omega arith)) (
              rw (insert-cursor (na ++ nb ++ no_id) no_id (56 + rest) (48 + rest) (omega arith)) (
                rw
                  (insert-cursor (na ++ nb ++ no_id ++ no_id) root.public_key (48 + rest)
                    (16 + rest) (omega (arith, h)))
                  (rw
                    (insert-cursor (na ++ nb ++ no_id ++ no_id ++ root.public_key) na (16 + rest)
                      (8 + rest) (omega (arith, la)))
                    (rw
                      (insert-cursor (na ++ nb ++ no_id ++ no_id ++ root.public_key ++ na) nb
                        (8 + rest) rest (omega (arith, lb)))
                      refl)))))))

  write_bound_keys-cursor :
      (root : KeyPair) (end_epoch : ℕ) (all_keys before keys : List Bytes) (i left : ℕ)
      (done : Bytes)
      → all_keys ≡ before ++ keys
      → i ≡ length before
      → left ≡ length keys * item_size
      → All (λ k. length k ≡ 32) keys
      → write_bound_keys c crypto root all_keys end_epoch (length keys) i (cursor done left)
        ≡ returned (cursor (done ++ entries root (end_epoch - i) keys) 0)
  unfolding write_bound_keys
  write_bound_keys-cursor root end_epoch all_keys before [] i left done e n m h =
      let none_left : left ≡ 0 = omega arith in rw none_left (simp append-nil)
  write_bound_keys-cursor root end_epoch all_keys before (key ∷ keys) i left done e n m (h, hs) =
      let room : left ≡ item_size + length keys * item_size = omega arith in
      let found : get_elem? all_keys i ≡ some key = rw (e, n) (get_elem?-append before key keys) in
      let next : end_epoch - suc i ≡ end_epoch - i - 1 = omega arith in
      rw found (
        rw room (
          rw (write_bound_key-cursor root key (end_epoch - i) done (length keys * item_size) h) (
            rw
              (write_bound_keys-cursor root end_epoch all_keys (before ++ key ∷ []) keys (suc i)
                (length keys * item_size) (done ++ entry root key (end_epoch - i))
                (e ∙ sym (append_assoc before (key ∷ []) keys))
                (omega (arith, n, length-append {0} before (key ∷ []))) refl hs)
              (rw next (
                rw (
                  append_assoc done (entry root key (end_epoch - i))
                    (entries root (end_epoch - i - 1) keys)))))))

  -- With a bound key of 32 bytes for each epoch from the first to the last, `createVotingFile`
  -- returns a file, and the file is the header and the entries, from the last epoch down to the
  -- first.
  pub create_voting_file-eq-layout :
      (secret : Text) (start_epoch end_epoch : ℕ) (keys : List Bytes)
      → start_epoch ≤ end_epoch + 1
      → length keys ≡ end_epoch + 1 - start_epoch
      → All (λ k. length k ≡ 32) keys
      → create_voting_file c crypto secret start_epoch end_epoch keys
        ≡ returned (
            layout
              (create_key_pair_from_private_key (hex_to_bytes secret))
              start_epoch
              end_epoch
              keys)
  unfolding create_voting_file
  create_voting_file-eq-layout secret a b keys h n hs =
      let root = create_key_pair_from_private_key (hex_to_bytes secret) in
      rw (← n) (
        rw (le→ltb_false (b + 1) a h) (
          rw (header-cursor root a b (length keys * item_size) (sizes.length_public_key _)) (
            rw
              (write_bound_keys-cursor root b keys [] keys 0 (length keys * item_size)
                (header root a b) refl refl refl hs)
              (let last : b - 0 ≡ b = omega arith in rw last (rw append-nil)))))
