-- ===== src/Announce/Nodes.antt =====
-- `announce`: the nodes in turn, each with its own kind of announcement.
use symbol_bootstrap.Base.{
  ℕ, suc, ◌+◌, ◌-◌, Bool, false, not, Option, none, some, List, [], ◌∷◌, ◌++◌, map, length, leb,
  ◌==◌, or_else, if◌then◌else◌,
}
use symbol_bootstrap.Base.Int.{ℤ, pos, ◌+ℤ◌}
use symbol_bootstrap.Base.Text.{Text, text_eq, to_upper_case, is_empty}
use symbol_bootstrap.Base.Result.{Result, returned, raised, error}
use symbol_bootstrap.Account.{
  Keys, PublicKeys, Sdk, ConfigAccount, KeyName, main, service_provider, AccountResolver, truthy,
}
use symbol_bootstrap.Action.{Action, pure, throw, lift, case_option, ◌>>=◌}
use symbol_bootstrap.Announce.{
  AccountInfo, MultisigAccountInfo, Chain, embedded, zero_amount, World, Network,
}
use symbol_bootstrap.Announce.Send.{
  AnnounceParams, announce_simple, announce_aggregate_complete, announce_aggregate_bonded,
}
use symbol_bootstrap.Announce.Cosigners.{is_account_empty, get_multisig_best_cosigner}

-- What is read of a node in addresses.yml and in the preset: its main account, and the main private
-- key of the node preset.
pub record AnnouncedNode : Type 0 where
  pub main_account : Option ConfigAccount
  pub preset_main_private_key : Option Text

-- What `createTransactions` is given, besides what is the same for all nodes.
pub record TransactionFactoryParams : Type 0 where
  pub index : ℕ
  pub main_account_info : Option AccountInfo
  pub main_account : PublicKeys
  pub max_fee : ℕ
  pub latest_finalized_block_epoch : ℕ

-- The transactions of a node, and whether one modifies a multisig account: the number of its added
-- addresses and its approval delta.
pub record TransactionFactory (T : Type 0) : Type 0 where
  pub create_transactions : TransactionFactoryParams → Action (World T) (List T)
  pub modification : T → Option (ℕ × ℤ)

-- What a call of `announce` is given of the preset and the command, and the code it calls.
pub record Announcement (T : Type 0) : Type 0 where
  pub params : AnnounceParams
  pub node_presets : ℕ
  pub nemesis_generation_hash_seed : Option Text
  pub service_provider_public_key : Option Text
  pub sdk : Sdk
  pub resolver : AccountResolver
  pub network : Network T
  pub factory : TransactionFactory T

abbrev multisig_approval : Option MultisigAccountInfo → ℕ
multisig_approval none = 0
multisig_approval (some info) = info.min_approval

-- A public account as what a resolver is asked for.
abbrev public_config : PublicKeys → ConfigAccount
public_config k = record { private_key = none; public_key = k.public_key; address = k.address }

abbrev found_provider : Result PublicKeys → Result (Option PublicKeys)
found_provider (raised e) = raised e
found_provider (returned k) = returned (some k)

module _ {T : Type 0} (a : Announcement T) (chain : Chain) where
  open a use {params, sdk, resolver, network, factory}

  abbrev resolve_with : ConfigAccount → KeyName → Action (World T) Keys
  resolve_with account key = lift (resolver (some account) key (some "Should not generate!"))

  -- `resolveMainAccount`
  unfoldable pub resolve_main_account :
      Option Text → PublicKeys → ConfigAccount → Action (World T) Keys
  resolve_main_account none announcer account = resolve_with account main
  resolve_main_account (some private_key) announcer account = do
    k ← lift (sdk.create_from_private_key private_key)
    if text_eq k.address announcer.address then pure k else resolve_with account main

  -- With a service provider, which signs a bonded aggregate, itself or by a cosigner.
  unfoldable pub announce_by_provider :
      PublicKeys → PublicKeys → Option MultisigAccountInfo → List T → Action (World T) Bool
  announce_by_provider provider main_keys multisig transactions =
      let inner = map (λ t. embedded t main_keys) transactions ++ zero_amount provider ∷ [] in
      let of_main = multisig_approval (chain.multisig_account main_keys.address) in
      case_option multisig
        (do
          signer ← resolve_with (public_config provider) service_provider
          announce_aggregate_bonded network chain params signer inner (pos (1 + of_main)) [])
        λ info. do
          (cosigners, best) ← get_multisig_best_cosigner sdk chain info
          case_option best (pure false) λ signer.
              announce_aggregate_bonded network chain params signer inner
                (pos (info.min_approval + of_main)) cosigners

  -- By the cosigners of a main account that is multisig.
  unfoldable pub announce_by_cosigners :
      PublicKeys → MultisigAccountInfo → List T → Action (World T) Bool
  announce_by_cosigners main_keys info transactions =
      let inner = map (λ t. embedded t main_keys) transactions in
      do
        (cosigners, best) ← get_multisig_best_cosigner sdk chain info
        case_option best (pure false) λ signer.
            if leb info.min_approval (length cosigners)
            then announce_aggregate_complete network chain params signer inner
                (pos (length cosigners - 1)) cosigners
            else announce_aggregate_bonded network chain params signer inner (pos info.min_approval)
                cosigners

  -- By the main account itself.
  unfoldable pub announce_by_signer : PublicKeys → Keys → List T → Action (World T) Bool
  announce_by_signer main_keys signer (t ∷ []) =
      case_option (factory.modification t) (announce_simple network chain params signer t)
        λ (additions, delta).
          announce_aggregate_bonded network chain params signer (embedded t main_keys ∷ [])
            (pos additions +ℤ delta) []
  announce_by_signer main_keys signer transactions =
      announce_aggregate_complete network chain params signer
        (map (λ t. embedded t main_keys) transactions) (pos 0) []

  unfoldable pub announce_by_main :
      Option Text
      → PublicKeys
      → ConfigAccount
      → Option MultisigAccountInfo
      → List T
      → Action (World T) Bool
  announce_by_main preset_key main_keys account (some info) transactions =
      announce_by_cosigners main_keys info transactions
  announce_by_main preset_key main_keys account none transactions = do
    signer ← resolve_main_account preset_key main_keys account
    announce_by_signer main_keys signer transactions

  -- What is done with the transactions of a node.
  unfoldable pub announce_transactions :
      Option PublicKeys → Option Text → PublicKeys → ConfigAccount → List T → Action (World T) Bool
  announce_transactions provider preset_key main_keys account [] = pure false
  announce_transactions (some provider) preset_key main_keys account (t ∷ ts) =
      announce_by_provider provider main_keys (chain.multisig_account provider.address) (t ∷ ts)
  announce_transactions none preset_key main_keys account (t ∷ ts) =
      announce_by_main preset_key main_keys account (chain.multisig_account main_keys.address)
        (t ∷ ts)

  -- The loop's body for an announcer that the network knows.
  unfoldable pub announce_known :
      ℕ
      → AnnouncedNode
      → PublicKeys
      → ConfigAccount
      → Option PublicKeys
      → AccountInfo
      → Action (World T) Bool
  announce_known index node main_keys account provider info =
      let announcer = or_else provider main_keys in
      do
        empty ← lift (is_account_empty chain.currency_mosaic_id info)
        if empty then pure false else do
          transactions ← factory.create_transactions (record {
            index = index;
            main_account_info =
                if text_eq main_keys.address announcer.address
                then some info
                else chain.account_info main_keys.address;
            main_account = announcer;
            max_fee = params.provided_max_fee;
            latest_finalized_block_epoch = chain.latest_finalized_block_epoch;
          })
          announce_transactions provider (truthy node.preset_main_private_key) main_keys account
              transactions

  abbrev required_main : Option ConfigAccount → Result ConfigAccount
  required_main none = raised (error "CA/Main account is required!")
  required_main (some account) = returned account

  abbrev provider_of : Option Text → Result (Option PublicKeys)
  provider_of none = returned none
  provider_of (some key) = found_provider (sdk.create_from_public_key key)

  -- The loop's body.
  unfoldable pub announce_node : ℕ → AnnouncedNode → Action (World T) Bool
  announce_node index node = do
    account ← lift (required_main node.main_account)
    main_keys ← lift (sdk.create_from_public_key account.public_key)
    provider ← lift (provider_of (truthy a.service_provider_public_key))
    case_option (chain.account_info (or_else provider main_keys).address) (pure false)
        λ info. announce_known index node main_keys account provider info

-- What the network knows of the accounts while a node is handled.
pub record Accounts : Type 0 where
  pub account_info : Text → Option AccountInfo
  pub multisig_account : Text → Option MultisigAccountInfo

abbrev pub chain_at : Chain → Accounts → Chain
chain_at chain accounts = record chain {
  account_info = accounts.account_info;
  multisig_account = accounts.multisig_account;
}

abbrev same_hash : Text → Option Text → Bool
same_hash hash none = false
same_hash hash (some expected) = text_eq (to_upper_case hash) (to_upper_case expected)

module _ {T : Type 0} (a : Announcement T) (chain : Chain) (accounts : ℕ → Accounts) where
  -- The loop over the nodes, from an index on.
  unfoldable pub announce_nodes : ℕ → List AnnouncedNode → Action (World T) (Unit {0})
  announce_nodes index [] = pure tt
  announce_nodes index (node ∷ nodes) =
      let rest = announce_nodes (suc index) nodes in
      do announced ← announce_node a (chain_at chain (accounts index)) index node; rest

  unfoldable pub announce : List AnnouncedNode → Action (World T) (Unit {0})
  announce nodes =
      if a.node_presets == 0
      then pure tt
      else if is_empty chain.currency_mosaic_id
      then throw (error "Mosaic Id must not be null!")
      else if not (same_hash chain.generation_hash a.nemesis_generation_hash_seed)
      then throw (error "You are connecting to the wrong network.")
      else announce_nodes 0 nodes
