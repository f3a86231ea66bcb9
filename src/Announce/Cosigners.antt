-- ===== src/Announce/Cosigners.antt =====
-- `promptAccounts`, `getBestCosigner` and `getMultisigBestCosigner`: who signs for a multisig account.
pub mod Entered
pub mod Enough
use symbol_bootstrap.Base.{
  ℕ, Bool, true, false, not, Option, none, some, List, [], ◌∷◌, ◌++◌, length, find?, ltb, ◌==◌,
  if◌then◌else◌,
}
use symbol_bootstrap.Base.Text.{Text, text_eq, is_empty}
use symbol_bootstrap.Base.Result.{Result, returned, raised, error}
use symbol_bootstrap.Account.{Keys, Sdk}
use symbol_bootstrap.Action.{Action, pure, wait, lift, gets, case_option, ◌>>=◌, ◌>>◌}
use symbol_bootstrap.Announce.{
  Mosaic, AccountInfo, MultisigAccountInfo, Chain, World, confirm, set_typed,
}

-- `allowedAddresses.splice(allowedAddresses.indexOf(expectedAddress), 1)`, where the address is the
-- first that equals the entered one.
unfoldable pub remove_address : Text → List Text → List Text
remove_address a [] = []
remove_address a (b ∷ bs) = if text_eq b a then bs else b ∷ remove_address a bs

module _ {T : Type 0} (sdk : Sdk) (min_approval : ℕ) where
  -- What follows an account that was expected: the list of the allowed addresses is never empty
  -- before.
  unfoldable pub after_accepted :
      List Text → List Keys → Action (World T) (List Keys) → Action (World T) (List Keys)
  after_accepted [] provided again = pure provided
  after_accepted (a ∷ allowed) provided again =
      if length provided == min_approval
      then pure provided
      else do more ← confirm; if more then again else pure provided

  -- The loop of `promptAccounts`, over the texts that the user enters.
  unfoldable pub enter_accounts : List Text → List Text → List Keys → Action (World T) (List Keys)
  enter_accounts [] allowed provided = wait
  enter_accounts (private_key ∷ typed) allowed provided =
      let again = enter_accounts typed in
      do
        set_typed typed
        if is_empty private_key then again allowed provided else do
          entered ← lift (sdk.create_from_private_key private_key)
          case_option (find? (λ a. text_eq a entered.address) allowed) (again allowed provided)
              λ expected.
                let left = remove_address entered.address allowed in
                let accounts = provided ++ entered ∷ [] in
                after_accepted left accounts (again left accounts)

  unfoldable pub prompt_accounts : List Text → Action (World T) (List Keys)
  prompt_accounts expected = do typed ← gets (λ w. w.typed); enter_accounts typed expected []

-- `isAccountEmpty`
unfoldable pub is_account_empty : Text → AccountInfo → Result Bool
is_account_empty mosaic_id info =
    if is_empty mosaic_id
    then raised (error "Mosaic Id must not be null!")
    else returned (elim (find? (λ m. text_eq m.id mosaic_id) info.mosaics) [
      | none ↦ true
      | some m ↦ not (ltb 0 m.amount)
    ])

-- An exception is caught and the next cosigner is tried.
abbrev pub has_funds : Chain → Keys → Bool
has_funds chain k = elim (chain.account_info k.address) [
  | none ↦ false
  | some info ↦ elim (is_account_empty chain.currency_mosaic_id info) [
    | raised e ↦ false
    | returned empty ↦ not empty
  ]
]

unfoldable pub get_best_cosigner : Chain → List Keys → Option Keys
get_best_cosigner chain cosigners = find? (has_funds chain) cosigners

-- The cosigners, which are added to the caller's empty list, and the best of them.
unfoldable pub get_multisig_best_cosigner :
    {T : Type 0} → Sdk → Chain → MultisigAccountInfo → Action (World T) (List Keys × Option Keys)
get_multisig_best_cosigner sdk chain info = do
  cosigners ← prompt_accounts sdk info.min_approval info.cosignatory_addresses
  pure (cosigners, get_best_cosigner chain cosigners)
