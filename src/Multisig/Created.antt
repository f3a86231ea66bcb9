-- ===== src/Multisig/Created.antt =====
-- What `createTransactions` makes of the options and of what the user enters.
use symbol_bootstrap.Base.{
  ℕ, ◌≡◌, refl, sym, true, Option, List, [], ◌∷◌, or_else, ◌==◌, arith, All, Bool-cases, inl, inr,
}
use symbol_bootstrap.Base.Text.{Text, is_empty}
use symbol_bootstrap.Base.Strings.{trim}
use symbol_bootstrap.Base.Result.{returned, >>=-eq-returned, >>-eq-returned}
use symbol_bootstrap.Account.{PublicKeys}
use symbol_bootstrap.Announce.{MultisigAccountInfo}
use symbol_bootstrap.Multisig.{
  Address, AddressSdk, ModifyMultisigParams, Entered, Modification, resolve_delta, to_address,
  to_addresses, resolve_cosigners, validate_params, create_modification,
}

returned_value : {A : Type 0} (a b : A) → returned a ≡ returned b → a ≡ b
returned_value a b h = cc

module _ (sdk : AddressSdk) (network_type : ℕ) where
  -- An address of the network, made of a valid text.
  abbrev pub IsOfNetwork : Address → Type 0
  IsOfNetwork a =
      (s : Text) × (sdk.is_valid_raw_address s ≡ true)
      × (sdk.create_from_raw_address s ≡ a)
      × (a.network_type ≡ network_type)

  to_address-IsOfNetwork :
      (s : Text) (a : Address) → to_address sdk network_type s ≡ returned a → IsOfNetwork a
  unfolding to_address
  to_address-IsOfNetwork s a h = elim (Bool-cases (sdk.is_valid_raw_address s)) [
    | inl valid ↦ elim (Bool-cases ((sdk.create_from_raw_address s).network_type == network_type)) [
      | inl same ↦
          let made = returned_value _ a (rw (valid, same) at h) in
          (s, valid, made, rw (← made) (ground arith))
      | inr other ↦ ground (arith, rw (valid, other) at h)
    ]
    | inr invalid ↦ ground (arith, rw invalid at h)
  ]

  to_addresses-IsOfNetwork :
      (ss : List Text) (addresses : List Address)
      → to_addresses sdk network_type ss ≡ returned addresses
      → All IsOfNetwork addresses
  unfolding to_addresses
  to_addresses-IsOfNetwork [] addresses h = rw (← returned_value _ addresses h) tt
  to_addresses-IsOfNetwork (s ∷ ss) addresses h =
      let (a, made, then_rest) = >>=-eq-returned (to_address sdk network_type (trim s)) _ h in
      let (rest, all, e) = >>=-eq-returned (to_addresses sdk network_type ss) _ then_rest in
      rw (← returned_value _ addresses e)
        (to_address-IsOfNetwork (trim s) a made, to_addresses-IsOfNetwork ss rest all)

  resolve_cosigners-IsOfNetwork :
      (entered : Text) (cosigners : Option Text) (addresses : List Address)
      → resolve_cosigners sdk network_type entered cosigners ≡ returned addresses
      → All IsOfNetwork addresses
  unfolding resolve_cosigners
  resolve_cosigners-IsOfNetwork entered cosigners addresses h =
      elim (Bool-cases (is_empty (or_else cosigners entered))) [
        | inl t ↦ rw (← returned_value _ addresses (rw t at h)) tt
        | inr t ↦ to_addresses-IsOfNetwork _ addresses (rw t at h)
      ]

-- When `createTransactions` returns, it returns one transaction, with the deltas of the options, or
-- entered where an option is missing; its addresses are made of valid texts and are all of the
-- network; and `validateParams` accepts it for the main account as the network knows it.
pub create_modification-accepted :
    (sdk : AddressSdk) (params : ModifyMultisigParams) (entered : Entered)
    (multisig_account : Text → Option MultisigAccountInfo) (network_type : ℕ)
    (main_account : PublicKeys) (max_fee : ℕ) (ms : List Modification)
    → create_modification sdk params entered multisig_account network_type main_account max_fee
      ≡ returned ms
    → (m : Modification) × (ms ≡ m ∷ [])
      × (m.approval_delta ≡ or_else params.min_approval_delta entered.entered_approval)
      × (m.removal_delta ≡ or_else params.min_removal_delta entered.entered_removal)
      × All (IsOfNetwork sdk network_type) m.additions
      × All (IsOfNetwork sdk network_type) m.deletions
      × (validate_params m.additions m.deletions m.removal_delta m.approval_delta
            (multisig_account main_account.address)
          ≡ returned tt)
unfolding create_modification
create_modification-accepted sdk params entered multisig_account network_type main_account max_fee
      ms h =
    let (additions, added, h₁) =
      >>=-eq-returned
        (resolve_cosigners sdk network_type entered.entered_additions params.address_additions) _
        h in
    let (deletions, deleted, h₂) =
      >>=-eq-returned
        (resolve_cosigners sdk network_type entered.entered_deletions params.address_deletions) _
        h₁ in
    let (valid, h₃) =
      >>-eq-returned
        (validate_params additions deletions
          (resolve_delta entered.entered_removal params.min_removal_delta)
          (resolve_delta entered.entered_approval params.min_approval_delta)
          (multisig_account main_account.address))
        _ h₂ in
    (
      _,
      sym (returned_value _ ms h₃),
      refl,
      refl,
      resolve_cosigners-IsOfNetwork sdk network_type _ _ additions added,
      resolve_cosigners-IsOfNetwork sdk network_type _ _ deletions deleted,
      valid,
    )
