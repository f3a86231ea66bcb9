-- ===== src/Multisig.antt =====
-- src/service/ModifyMultisigService.ts: the transaction that modifies a multisig account.
--
-- Addresses are made by symbol-sdk, the parameter `AddressSdk`. What the user enters where an option
-- is not given is the record `Entered`; a number that he enters is a whole one.
mod Lists
pub mod Accepted
pub mod Created
pub mod Factory
mod Examples
use symbol_bootstrap.Base.{
  ℕ, Bool, true, false, not, ◌&&◌, ◌||◌, Option, none, some, List, [], ◌∷◌, length, any, or_else,
  ◌==◌, if◌then◌else◌,
}
use symbol_bootstrap.Base.Int.{ℤ, pos, ◌+ℤ◌, sub_ℕ, ltz, is_zero}
use symbol_bootstrap.Base.Text.{Text, text_eq, is_empty}
use symbol_bootstrap.Base.Strings.{trim, split}
use symbol_bootstrap.Base.Result.{Result, returned, raised, error, guard, ◌>>=◌, ◌>>◌}
use symbol_bootstrap.Account.{PublicKeys}
use symbol_bootstrap.Announce.{MultisigAccountInfo}

-- `Address` of symbol-sdk, with its text `plain()`.
pub record Address : Type 0 where
  pub plain : Text
  pub network_type : ℕ

-- `Address.isValidRawAddress` and `Address.createFromRawAddress`.
pub record AddressSdk : Type 0 where
  pub is_valid_raw_address : Text → Bool
  pub create_from_raw_address : Text → Address

pub record ModifyMultisigParams : Type 0 where
  pub min_removal_delta : Option ℤ
  pub min_approval_delta : Option ℤ
  pub address_additions : Option Text
  pub address_deletions : Option Text

pub record Entered : Type 0 where
  pub entered_removal : ℤ
  pub entered_approval : ℤ
  pub entered_additions : Text
  pub entered_deletions : Text

-- `MultisigAccountModificationTransaction`
pub record Modification : Type 0 where
  pub approval_delta : ℤ
  pub removal_delta : ℤ
  pub additions : List Address
  pub deletions : List Address
  pub max_fee : ℕ

-- `resolveDelta`
abbrev pub resolve_delta : ℤ → Option ℤ → ℤ
resolve_delta entered delta = or_else delta entered

module _ (sdk : AddressSdk) (network_type : ℕ) where
  unfoldable pub to_address : Text → Result Address
  to_address s = do
    guard (sdk.is_valid_raw_address s) (error "Address is not valid!")
    let address = sdk.create_from_raw_address s
    guard (address.network_type == network_type) (error "Address invalid network type.")
    returned address

  unfoldable pub to_addresses : List Text → Result (List Address)
  to_addresses [] = returned []
  to_addresses (s ∷ ss) = do
    address ← to_address (trim s)
    addresses ← to_addresses ss
    returned (address ∷ addresses)

  -- `resolveCosigners`
  unfoldable pub resolve_cosigners : Text → Option Text → Result (List Address)
  resolve_cosigners entered cosigners =
      let resolution = or_else cosigners entered in
      if is_empty resolution
      then returned []
      else let (part, parts) = split b',' resolution in to_addresses (part ∷ parts)

-- The fields of `currentMultisigInfo?`.
abbrev pub cosignatories_of : Option MultisigAccountInfo → List Text
cosignatories_of none = []
cosignatories_of (some info) = info.cosignatory_addresses

abbrev pub min_approval_of : Option MultisigAccountInfo → ℤ
min_approval_of none = pos 0
min_approval_of (some info) = pos info.min_approval

abbrev pub min_removal_of : Option MultisigAccountInfo → ℤ
min_removal_of none = pos 0
min_removal_of (some info) = pos info.min_removal

unfoldable pub is_cosignatory : List Text → Address → Bool
is_cosignatory cosignatories a = any (λ c. text_eq c a.plain) cosignatories

-- The two loops of `validateParams`.
unfoldable pub check_additions : List Text → List Address → Result (Unit {0})
check_additions cosignatories [] = returned tt
check_additions cosignatories (a ∷ additions) = do
  guard (not (is_cosignatory cosignatories a)) (error "Cannot add cosignatory!")
  check_additions cosignatories additions

unfoldable pub check_deletions : List Text → List Address → Result (Unit {0})
check_deletions cosignatories [] = returned tt
check_deletions cosignatories (a ∷ deletions) = do
  guard (is_cosignatory cosignatories a) (error "Cannot remove cosignatory!")
  check_deletions cosignatories deletions

-- The numbers of the modified account.
abbrev pub new_min_approval : Option MultisigAccountInfo → ℤ → ℤ
new_min_approval current delta = min_approval_of current +ℤ delta

abbrev pub new_min_removal : Option MultisigAccountInfo → ℤ → ℤ
new_min_removal current delta = min_removal_of current +ℤ delta

abbrev pub new_cosignatory_number : Option MultisigAccountInfo → List Address → List Address → ℤ
new_cosignatory_number current additions deletions =
    pos (length (cosignatories_of current)) +ℤ sub_ℕ (length additions) (length deletions)

-- The checks of `validateParams` on the numbers.
unfoldable pub check_numbers : ℤ → ℤ → ℤ → Result (Unit {0})
check_numbers new_number new_approval new_removal = do
  guard (not (ltz new_number new_approval))
      (error "There are more required cosignatories than available for min. approval.")
  guard (not (ltz new_number new_removal))
      (error "There are more required cosignatories than available for min removal.")
  guard (not (ltz (pos 0) new_number && (is_zero new_approval || is_zero new_removal)))
      (error "Minimum approval and/or minimum removal cannot be set to 0.")

unfoldable pub validate_params :
    List Address → List Address → ℤ → ℤ → Option MultisigAccountInfo → Result (Unit {0})
validate_params additions deletions removal_delta approval_delta current = do
  check_additions (cosignatories_of current) additions
  check_deletions (cosignatories_of current) deletions
  check_numbers (new_cosignatory_number current additions deletions)
      (new_min_approval current approval_delta) (new_min_removal current removal_delta)

-- `createTransactions`; `multisig_account` is the gateway's answer for the main account.
unfoldable pub create_modification :
    AddressSdk
    → ModifyMultisigParams
    → Entered
    → (Text → Option MultisigAccountInfo)
    → ℕ
    → PublicKeys
    → ℕ
    → Result (List Modification)
create_modification sdk params entered multisig_account network_type main_account max_fee = do
  additions ← resolve_cosigners sdk network_type entered.entered_additions params.address_additions
  deletions ← resolve_cosigners sdk network_type entered.entered_deletions params.address_deletions
  let approval_delta = resolve_delta entered.entered_approval params.min_approval_delta
  let removal_delta = resolve_delta entered.entered_removal params.min_removal_delta
  validate_params additions deletions removal_delta approval_delta
      (multisig_account main_account.address)
  returned (
      record {
        approval_delta = approval_delta;
        removal_delta = removal_delta;
        additions = additions;
        deletions = deletions;
        max_fee = max_fee;
      }
      ∷ [])
