-- ===== src/Config/Genesis.antt =====
-- The link transactions of the nemesis block, from `generateNemesisConfig` of
-- src/service/ConfigService.ts.
--
-- The SDK signs and reads transactions, and files are written, as the parameter `ConfigSdk` says. The
-- state is which files were written to the folder of the transactions. `Promise.all` writes some of
-- them at the same time; the model takes these in turn, and the order of the state says nothing.
pub mod Stored
pub mod Links
use symbol_bootstrap.Base.{ℕ, Bool, Option, none, some, List, [], ◌∷◌, ◌++◌, any, if◌then◌else◌}
use symbol_bootstrap.Base.Text.{Text, text, text_eq}
use symbol_bootstrap.Base.Result.{Result}
use symbol_bootstrap.Action.{Action, done, pure, lift, ◌>>=◌, ◌>>◌}

-- `VrfKeyLinkTransaction`, `AccountKeyLinkTransaction`, `VotingKeyLinkTransaction` with the action Link,
-- the fee 0 and the deadline 1, for the network of the preset
pub data LinkTransaction : Type 0 where
  vrf_key_link account_key_link : Text → LinkTransaction
  voting_key_link : Text → ℕ → ℕ → LinkTransaction

-- `Account` of symbol-sdk, as what it signs with; its payloads; `TransactionMapping.createFromPayload`,
-- which may throw; the hash of a payload; how the writing of a file ends.
pub record ConfigSdk : Type 1 where
  pub Signer : Type 0
  pub sign : Signer → LinkTransaction → Text
  pub check_payload : Text → Result (Unit {0})
  pub transaction_hash : Text → Text
  pub write_outcome : Text → Text → Result (Unit {0})

pub record VotingKeyFile : Type 0 where
  pub public_key : Text
  pub start_epoch : ℕ
  pub end_epoch : ℕ

-- What is read of a `NodeAccount`; `excluded` is `excludeFromNemesis` of its preset.
pub record NemesisNode : Type 0 where
  pub name : Text
  pub main_public_key : Text
  pub vrf_public_key : Option Text
  pub remote_public_key : Option Text
  pub voting : List VotingKeyFile
  pub excluded : Bool

-- The name of a file, without the folder, and its content.
abbrev pub Stored : Type 0
Stored = List (Text × Text)

abbrev pub bin_name : Text → Text
bin_name name = name ++ text ".bin"

-- The nodes that are not excluded.
unfoldable pub nemesis_nodes : List NemesisNode → List NemesisNode
nemesis_nodes [] = []
nemesis_nodes (n ∷ nodes) = let rest = nemesis_nodes nodes in if n.excluded then rest else n ∷ rest

module _ {A : Type 0} where
  unfoldable pub for_each : (A → Action Stored (Unit {0})) → List A → Action Stored (Unit {0})
  for_each f [] = pure tt
  for_each f (x ∷ xs) = let rest = for_each f xs in f x >> rest

abbrev pub voting_link : VotingKeyFile → LinkTransaction
voting_link f = voting_key_link f.public_key f.start_epoch f.end_epoch

module _ (sdk : ConfigSdk) where
  abbrev write_bin : Text → Text → Action Stored (Unit {0})
  write_bin name payload s = done tt ((bin_name name, payload) ∷ s)

  -- `storeTransaction`
  unfoldable pub store_transaction : Text → Text → Action Stored (Unit {0})
  store_transaction name payload = do
    lift (sdk.check_payload payload)
    lift (sdk.write_outcome (bin_name name) payload)
    write_bin name payload

  -- The transactions of the preset, of which those with the hash of an earlier one are left out.
  unfoldable pub store_provided : List Text → List (Text × Text) → Action Stored (Unit {0})
  store_provided hashes [] = pure tt
  store_provided hashes ((key, payload) ∷ transactions) =
      let hash = sdk.transaction_hash payload in
      let later = store_provided hashes transactions in
      let others = store_provided (hashes ++ hash ∷ []) transactions in
      if any (text_eq hash) hashes then later else store_transaction key payload >> others

module _ (sdk : ConfigSdk) (resolve_main : Text → Text → Result sdk.Signer) where
  -- The resolved main account signs a link, which is stored.
  unfoldable pub sign_and_store : NemesisNode → Text → LinkTransaction → Action Stored (Unit {0})
  sign_and_store node name link = do
    signer ← lift (resolve_main node.name node.main_public_key)
    store_transaction sdk name (sdk.sign signer link)

  -- `createVrfTransaction`, for a node with a VRF account
  unfoldable pub create_vrf_transaction : NemesisNode → Action Stored (Unit {0})
  create_vrf_transaction node = elim node.vrf_public_key [
    | none ↦ pure tt
    | some key ↦ sign_and_store node (text "vrf_" ++ node.name) (vrf_key_link key)
  ]

  -- `createAccountKeyLinkTransaction`, for a node with a remote account
  unfoldable pub create_account_key_link_transaction : NemesisNode → Action Stored (Unit {0})
  create_account_key_link_transaction node = elim node.remote_public_key [
    | none ↦ pure tt
    | some key ↦ sign_and_store node (text "remote_" ++ node.name) (account_key_link key)
  ]

  -- `createVotingKeyTransactions`
  unfoldable pub create_voting_key_transactions : NemesisNode → Action Stored (Unit {0})
  create_voting_key_transactions node = do
    signer ← lift (resolve_main node.name node.main_public_key)
    for_each
        (λ f. store_transaction sdk (text "voting_" ++ node.name) (sdk.sign signer (voting_link f)))
        node.voting

  -- The part of `generateNemesisConfig` that stores transactions.
  unfoldable pub generate_transactions :
      List NemesisNode → List (Text × Text) → Action Stored (Unit {0})
  generate_transactions all_nodes transactions = do
    let nodes = nemesis_nodes all_nodes
    for_each create_vrf_transaction nodes
    for_each create_account_key_link_transaction nodes
    for_each create_voting_key_transactions nodes
    store_provided sdk [] transactions
