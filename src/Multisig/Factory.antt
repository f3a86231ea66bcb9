-- ===== src/Multisig/Factory.antt =====
-- `ModifyMultisigService` as the factory of `announce`.
use symbol_bootstrap.Base.{ℕ, some, length}
use symbol_bootstrap.Action.{lift}
use symbol_bootstrap.Announce.Nodes.{TransactionFactory, Accounts}
use symbol_bootstrap.Multisig.{
  AddressSdk, ModifyMultisigParams, Entered, Modification, create_modification,
}

-- The user enters other options for each node; the network answers by the node, too.
abbrev pub modify_multisig_factory :
    AddressSdk
    → ModifyMultisigParams
    → ℕ
    → (ℕ → Entered)
    → (ℕ → Accounts)
    → TransactionFactory Modification
modify_multisig_factory sdk params network_type entered accounts = record {
  create_transactions = λ p. lift (
      create_modification sdk params (entered p.index) (accounts p.index).multisig_account
        network_type p.main_account p.max_fee);
  modification = λ m. some (length m.additions, m.approval_delta);
}
