-- ===== src/Announce/Induction.antt =====
-- What `announce` keeps, from what its prompts, its announcements and the factory keep.
use symbol_bootstrap.Base.{ℕ, suc, Option, none, some, List, [], ◌∷◌, length, ◌==◌}
use symbol_bootstrap.Base.Int.{ℤ}
use symbol_bootstrap.Base.Text.{Text}
use symbol_bootstrap.Account.{Keys, PublicKeys, ConfigAccount}
use symbol_bootstrap.Action.{Action, pure}
use symbol_bootstrap.Action.Keeps.{Keeps, Keeps-pure, Keeps-if, Keeps-bind, keeps_rules}
use symbol_bootstrap.Announce.{MultisigAccountInfo, Chain, Inner, World, confirm, set_typed}
use symbol_bootstrap.Announce.Send.{
  announce_simple, announce_aggregate_complete, announce_aggregate_bonded,
}
use symbol_bootstrap.Announce.Cosigners.{
  after_accepted, enter_accounts, prompt_accounts, get_multisig_best_cosigner,
}
use symbol_bootstrap.Announce.Nodes.{
  AnnouncedNode, TransactionFactoryParams, Announcement, Accounts, chain_at, resolve_main_account,
  announce_by_provider, announce_by_cosigners, announce_by_signer, announce_by_main,
  announce_transactions, announce_known, announce_node, announce_nodes, announce,
}

-- The parts keep `P`.
pub record PartsKeep {T : Type 0} (P : World T → Type 0) (a : Announcement T) : Type 0 where
  pub of_confirm : Keeps P confirm
  pub of_typed : (typed : List Text) → Keeps P (set_typed typed)
  pub of_simple :
      (chain : Chain) (signer : Keys) (t : T)
      → Keeps P (announce_simple a.network chain a.params signer t)
  pub of_complete :
      (chain : Chain) (signer : Keys) (inner : List (Inner T)) (required : ℤ)
      (cosigners : List Keys)
      → Keeps P
          (announce_aggregate_complete a.network chain a.params signer inner required cosigners)
  pub of_bonded :
      (chain : Chain) (signer : Keys) (inner : List (Inner T)) (required : ℤ)
      (cosigners : List Keys)
      → Keeps P (announce_aggregate_bonded a.network chain a.params signer inner required cosigners)
  pub of_factory : (p : TransactionFactoryParams) → Keeps P (a.factory.create_transactions p)

module _ {T : Type 0} (P : World T → Type 0) (a : Announcement T) (parts : PartsKeep P a) where
  after_accepted-Keeps :
      (n : ℕ) (allowed : List Text) (provided : List Keys) (again : Action (World T) (List Keys))
      → Keeps P again
      → Keeps P (after_accepted a.sdk n allowed provided again)
  unfolding after_accepted
  after_accepted-Keeps n [] provided again h = search keeps_rules
  after_accepted-Keeps n (b ∷ allowed) provided again h =
      Keeps-if (length provided == n) _ _ (Keeps-pure provided) (
        Keeps-bind _ _ parts.of_confirm
          (λ more. Keeps-if more again (pure provided) h (Keeps-pure provided)))

  enter_accounts-Keeps :
      (n : ℕ) (typed allowed : List Text) (provided : List Keys)
      → Keeps P (enter_accounts a.sdk n typed allowed provided)
  unfolding enter_accounts
  enter_accounts-Keeps n [] allowed provided = search keeps_rules
  enter_accounts-Keeps n (k ∷ typed) allowed provided =
      let again = enter_accounts-Keeps n typed in
      Keeps-bind _ _ (parts.of_typed typed)
        λ _. search (keeps_rules, after_accepted-Keeps, again) depth 9

  best_cosigner-Keeps :
      (chain : Chain) (info : MultisigAccountInfo)
      → Keeps P (get_multisig_best_cosigner a.sdk chain info)
  unfolding get_multisig_best_cosigner prompt_accounts
  best_cosigner-Keeps chain info = search (keeps_rules, enter_accounts-Keeps)

  module _ (chain : Chain) where
    resolve_main_account-Keeps :
        (o : Option Text) (announcer : PublicKeys) (account : ConfigAccount)
        → Keeps P (resolve_main_account a chain o announcer account)
    unfolding resolve_main_account
    resolve_main_account-Keeps none announcer account = search keeps_rules
    resolve_main_account-Keeps (some k) announcer account = search keeps_rules

    announce_by_provider-Keeps :
        (provider main_keys : PublicKeys) (multisig : Option MultisigAccountInfo) (ts : List T)
        → Keeps P (announce_by_provider a chain provider main_keys multisig ts)
    unfolding announce_by_provider
    announce_by_provider-Keeps provider main_keys multisig ts =
        search (keeps_rules, best_cosigner-Keeps, parts.of_bonded)

    announce_by_cosigners-Keeps :
        (main_keys : PublicKeys) (info : MultisigAccountInfo) (ts : List T)
        → Keeps P (announce_by_cosigners a chain main_keys info ts)
    unfolding announce_by_cosigners
    announce_by_cosigners-Keeps main_keys info ts =
        search (keeps_rules, best_cosigner-Keeps, parts.of_bonded, parts.of_complete)

    announce_by_signer-Keeps :
        (main_keys : PublicKeys) (signer : Keys) (ts : List T)
        → Keeps P (announce_by_signer a chain main_keys signer ts)
    unfolding announce_by_signer
    announce_by_signer-Keeps main_keys signer [] = search (parts.of_complete)
    announce_by_signer-Keeps main_keys signer (t ∷ []) =
        search (keeps_rules, parts.of_simple, parts.of_bonded)
    announce_by_signer-Keeps main_keys signer (t ∷ u ∷ ts) = search (parts.of_complete)

    announce_by_main-Keeps :
        (o : Option Text) (main_keys : PublicKeys) (account : ConfigAccount)
        (multisig : Option MultisigAccountInfo) (ts : List T)
        → Keeps P (announce_by_main a chain o main_keys account multisig ts)
    unfolding announce_by_main
    announce_by_main-Keeps o main_keys account none ts =
        search (keeps_rules, resolve_main_account-Keeps, announce_by_signer-Keeps)
    announce_by_main-Keeps o main_keys account (some info) ts = search (announce_by_cosigners-Keeps)

    announce_transactions-Keeps :
        (provider : Option PublicKeys) (o : Option Text) (main_keys : PublicKeys)
        (account : ConfigAccount) (ts : List T)
        → Keeps P (announce_transactions a chain provider o main_keys account ts)
    unfolding announce_transactions
    announce_transactions-Keeps provider o main_keys account [] = search keeps_rules
    announce_transactions-Keeps none o main_keys account (t ∷ ts) = search (announce_by_main-Keeps)
    announce_transactions-Keeps (some p) o main_keys account (t ∷ ts) =
        search (announce_by_provider-Keeps)

    announce_node-Keeps :
        (index : ℕ) (node : AnnouncedNode) → Keeps P (announce_node a chain index node)
    unfolding announce_node announce_known
    announce_node-Keeps index node =
        search (keeps_rules, parts.of_factory, announce_transactions-Keeps) depth 9

  module _ (chain : Chain) (accounts : ℕ → Accounts) where
    announce_nodes-Keeps :
        (index : ℕ) (nodes : List AnnouncedNode)
        → Keeps P (announce_nodes a chain accounts index nodes)
    unfolding announce_nodes
    announce_nodes-Keeps index [] = search keeps_rules
    announce_nodes-Keeps index (node ∷ nodes) =
        Keeps-bind _ _ (announce_node-Keeps (chain_at chain (accounts index)) index node)
          λ _. announce_nodes-Keeps (suc index) nodes

    pub announce-Keeps : (nodes : List AnnouncedNode) → Keeps P (announce a chain accounts nodes)
    unfolding announce
    announce-Keeps nodes = search (keeps_rules, announce_nodes-Keeps)
