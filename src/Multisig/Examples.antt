-- ===== src/Multisig/Examples.antt =====
-- An account with three cosignatories, one of which is exchanged.
use symbol_bootstrap.Base.{◌≡◌, refl, true, none, some, List, [], ◌∷◌, length}
use symbol_bootstrap.Base.Int.{pos, negsuc, ◌+ℤ◌}
use symbol_bootstrap.Base.Counting.{count}
use symbol_bootstrap.Base.Strings.{split, trim_start, trim_end, is_space}
use symbol_bootstrap.Base.Text.{Text, text, text_eq}
use symbol_bootstrap.Base.Result.{returned}
use symbol_bootstrap.Account.{PublicKeys}
use symbol_bootstrap.Announce.{MultisigAccountInfo}
use symbol_bootstrap.Multisig.{
  Address, AddressSdk, ModifyMultisigParams, Entered, Modification, to_address, to_addresses,
  resolve_cosigners, is_cosignatory, check_additions, check_deletions, check_numbers,
  validate_params, create_modification, new_min_approval, new_min_removal,
}
use symbol_bootstrap.Multisig.Lists.{plain_of, IsDistinct, IsDistinct-cons, IsDistinct-nil}
use symbol_bootstrap.Multisig.Accepted.{modified, IsFor, validate_params-modified}

abbrev current : MultisigAccountInfo
current = record {
  min_approval = 2;
  min_removal = 2;
  cosignatory_addresses = text "C1" ∷ text "C2" ∷ text "C3" ∷ [];
}

abbrev address : Text → Address
address t = record { plain = t; network_type = 152 }

abbrev sdk : AddressSdk
sdk = record { is_valid_raw_address = λ t. true; create_from_raw_address = address }

abbrev params : ModifyMultisigParams
params = record {
  min_removal_delta = some (negsuc 0);
  min_approval_delta = none;
  address_additions = some (text " C4,C5 ");
  address_deletions = some (text "C2");
}

abbrev entered : Entered
entered = record {
  entered_removal = pos 9;
  entered_approval = pos 1;
  entered_additions = text "";
  entered_deletions = text "";
}

abbrev main_account : PublicKeys
main_account = record { public_key = text "M"; address = text "M" }

abbrev added : List Address
added = address (text "C4") ∷ address (text "C5") ∷ []

abbrev removed : List Address
removed = address (text "C2") ∷ []

abbrev modification : Modification
modification = record {
  approval_delta = pos 1;
  removal_delta = negsuc 0;
  additions = added;
  deletions = removed;
  max_fee = 100;
}

created :
    create_modification sdk params entered (λ a. some current) 152 main_account 100
    ≡ returned (modification ∷ [])
unfolding create_modification resolve_cosigners to_addresses to_address split trim_start trim_end
    is_space is_cosignatory check_additions check_deletions check_numbers validate_params text_eq
    ◌+ℤ◌
created = refl

-- A removal delta of -3 is accepted: the new minimal removal is -1.
negative : validate_params added removed (negsuc 2) (pos 0) (some current) ≡ returned tt
unfolding is_cosignatory check_additions check_deletions check_numbers validate_params text_eq ◌+ℤ◌
negative = refl

-- The same address twice counts for two cosignatories.
twice :
    validate_params (address (text "C4") ∷ address (text "C4") ∷ []) [] (pos 2) (pos 2) none
    ≡ returned tt
unfolding is_cosignatory check_additions check_deletions check_numbers validate_params text_eq ◌+ℤ◌
twice = refl

accepted : validate_params added removed (negsuc 0) (pos 1) (some current) ≡ returned tt
unfolding is_cosignatory check_additions check_deletions check_numbers validate_params text_eq ◌+ℤ◌
accepted = refl

current-IsDistinct : IsDistinct current.cosignatory_addresses
unfolding count text_eq
current-IsDistinct = IsDistinct-cons (text "C1") (text "C2" ∷ text "C3" ∷ []) refl (
    IsDistinct-cons (text "C2") (text "C3" ∷ []) refl
      (IsDistinct-cons (text "C3") [] refl IsDistinct-nil))

removed-IsDistinct : IsDistinct (plain_of removed)
unfolding count text_eq plain_of
removed-IsDistinct = IsDistinct-cons (text "C2") [] refl IsDistinct-nil

added-IsDistinct : IsDistinct (plain_of added)
unfolding count text_eq plain_of
added-IsDistinct =
    IsDistinct-cons (text "C4") (text "C5" ∷ []) refl
      (IsDistinct-cons (text "C5") [] refl IsDistinct-nil)

validate_params-modified_example :
    IsDistinct (modified current.cosignatory_addresses added removed)
    × IsFor
        (new_min_approval (some current) (pos 1))
        (new_min_removal (some current) (negsuc 0))
        (length (modified current.cosignatory_addresses added removed))
validate_params-modified_example =
    validate_params-modified (some current) added removed (negsuc 0) (pos 1) current-IsDistinct
      added-IsDistinct removed-IsDistinct accepted
