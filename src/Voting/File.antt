-- ===== src/Voting/File.antt =====
-- src/service/VotingUtils.ts: the binary voting key file. Bytes are numbers; the conversions of
-- symbol-sdk and the signature implementation (noble or tweetnacl) are the records `Convert` and
-- `Implementation`.
pub mod Layout
pub mod RoundTrip
pub mod Examples
use symbol_bootstrap.Base.{
  ℕ, zero, suc, ◌+◌, ◌-◌, ◌*◌, ◌<◌, ◌≡◌, Bool, true, false, ◌&&◌, Option, none, some, List, [], ◌∷◌,
  ◌++◌, length, take, drop, replicate, get_elem?, ltb, leb, ◌==◌, if◌then◌else◌,
}
use symbol_bootstrap.Base.Text.{Text, text}
use symbol_bootstrap.Base.Result.{Result, returned, raised, error, type_error, range_error, ◌>>=◌}

abbrev pub Bytes : Type 0
Bytes = List ℕ

-- `number_to_bytes n` is `Convert.numberToUint8Array(n, 8)`.
pub record Convert : Type 0 where
  pub number_to_bytes : ℕ → Bytes
  pub bytes_to_number : Bytes → ℕ
  pub hex_to_bytes : Text → Bytes
  pub bytes_to_hex : Bytes → Text

pub record KeyPair : Type 0 where
  pub private_key : Bytes
  pub public_key : Bytes

pub record Implementation : Type 0 where
  pub create_key_pair_from_private_key : Bytes → KeyPair
  pub sign : KeyPair → Bytes → Bytes

pub record VotingKeyAccount : Type 0 where
  pub start_epoch : ℕ
  pub end_epoch : ℕ
  pub public_key : Text

-- The array that is being filled, and the index of the next write.
pub record Cursor : Type 0 where
  pub result : Bytes
  pub index : ℕ

-- `Uint8Array.set` throws where the value does not fit.
unfoldable pub insert : Cursor → Bytes → Result Cursor
insert c value =
    if leb (c.index + length value) (length c.result)
    then returned (record {
      result = take c.index c.result ++ value ++ drop (c.index + length value) c.result;
      index = c.index + length value;
    })
    else raised range_error

abbrev pub header_size : ℕ
header_size = 64 + 16

abbrev pub item_size : ℕ
item_size = 32 + 64

abbrev required : Option Bytes → Result Bytes
required none = raised type_error
required (some k) = returned k

module _ (c : Convert) (crypto : Implementation) where
  open c use {number_to_bytes, bytes_to_number, hex_to_bytes, bytes_to_hex}
  open crypto use {create_key_pair_from_private_key, sign}

  -- One round of the loop over the bound keys: the private key, and the root key's signature of
  -- the public key and the epoch.
  unfoldable pub write_bound_key : KeyPair → Bytes → ℕ → Cursor → Result Cursor
  write_bound_key root key epoch at =
      if length key == 32
      then (do
        after ← insert at key
        insert after (
            sign root ((create_key_pair_from_private_key key).public_key ++ number_to_bytes epoch)))
      else raised (error "Invalid private key size")

  -- The loop: `rounds` are left, and `i` is the loop's variable.
  unfoldable pub write_bound_keys : KeyPair → List Bytes → ℕ → ℕ → ℕ → Cursor → Result Cursor
  write_bound_keys root keys end_epoch zero i at = returned at
  write_bound_keys root keys end_epoch (suc rounds) i at = do
    key ← required (get_elem? keys i)
    after ← write_bound_key root key (end_epoch - i) at
    write_bound_keys root keys end_epoch rounds (suc i) after

  unfoldable pub write_header : ℕ → ℕ → Bytes → Cursor → Result Cursor
  write_header start_epoch end_epoch root_public_key at = do
    a ← insert at (number_to_bytes start_epoch)
    b ← insert a (number_to_bytes end_epoch)
    d ← insert b (hex_to_bytes (text "FFFFFFFFFFFFFFFF"))
    e ← insert d (hex_to_bytes (text "FFFFFFFFFFFFFFFF"))
    f ← insert e root_public_key
    g ← insert f (number_to_bytes start_epoch)
    insert g (number_to_bytes end_epoch)

  -- The bound private keys are given, or drawn at random: here they are an argument. A negative
  -- size makes `new Uint8Array` throw.
  unfoldable pub create_voting_file : Text → ℕ → ℕ → List Bytes → Result Bytes
  create_voting_file secret start_epoch end_epoch keys =
      let items = end_epoch + 1 - start_epoch in
      let root = create_key_pair_from_private_key (hex_to_bytes secret) in
      if ltb (end_epoch + 1) start_epoch then raised range_error else do
        header ←
            write_header start_epoch end_epoch root.public_key
              (record { result = replicate (header_size + items * item_size) 0; index = 0 })
        done ← write_bound_keys root keys end_epoch items 0 header
        returned done.result

-- `file.slice(from, to)`
abbrev pub slice : ℕ → ℕ → Bytes → Bytes
slice from to file = take (to - from) (drop from file)

module _ (c : Convert) where
  open c use {bytes_to_number, bytes_to_hex}

  unfoldable pub read_voting_file : Bytes → Result VotingKeyAccount
  read_voting_file file =
      let start_epoch = bytes_to_number (slice 0 8 file) in
      let end_epoch = bytes_to_number (slice 8 16 file) in
      if leb start_epoch (end_epoch + 1)
        && length file == header_size + (end_epoch + 1 - start_epoch) * item_size
      then returned (record {
        start_epoch = start_epoch;
        end_epoch = end_epoch;
        public_key = bytes_to_hex (slice 32 64 file);
      })
      else raised (error "Unexpected voting key file")
