-- ===== src/Announce.antt =====
-- src/service/AnnounceService.ts: how the transactions of the nodes are signed and announced.
--
-- What the network says is the parameter `Chain`; while a node is handled it does not change. A
-- transaction is of any type `T`. The log of what was announced, newest first, is part of the state,
-- and so are the answers of the user: a question or a prompt with none left waits.
pub mod Send
pub mod Cosigners
pub mod Nodes
pub mod Induction
pub mod Locked
pub mod Consent
mod Examples
use symbol_bootstrap.Base.{ℕ, Bool, true, false, Option, none, some, List, [], ◌∷◌}
use symbol_bootstrap.Base.Int.{ℤ}
use symbol_bootstrap.Base.Text.{Text}
use symbol_bootstrap.Account.{Keys, PublicKeys}
use symbol_bootstrap.Action.{Outcome, waiting, done, Action}
use symbol_bootstrap.Link.Voting.{GenericNodeAccount}

pub record Mosaic : Type 0 where
  pub id : Text
  pub amount : ℕ

-- `AccountInfo` of symbol-sdk: the mosaics and the `supplementalPublicKeys`.
pub record AccountInfo : Type 0 where
  pub mosaics : List Mosaic
  pub supplemental_public_keys : GenericNodeAccount

pub record MultisigAccountInfo : Type 0 where
  pub min_approval : ℕ
  pub min_removal : ℕ
  pub cosignatory_addresses : List Text

-- What the REST gateway answers: `none` where it fails. An account that is not multisig has no
-- multisig information.
pub record Chain : Type 0 where
  pub account_info : Text → Option AccountInfo
  pub multisig_account : Text → Option MultisigAccountInfo
  pub generation_hash : Text
  pub currency_mosaic_id : Text
  pub min_fee_multiplier : ℕ
  pub latest_finalized_block_epoch : ℕ

-- How the SDK is told the fee of a transaction: the one that the factory gave it, a fixed one, by
-- `setMaxFee`, or by `setMaxFeeForAggregate` with the cosignatures to come.
pub data Fee : Type 0 where
  created : Fee
  fixed : ℕ → Fee
  by_size : ℕ → Fee
  by_aggregate : ℕ → ℤ → Fee

-- `t.toAggregate(account)`, and the transfer of zero to the account itself.
pub data Inner (T : Type 0) : Type 0 where
  embedded : T → PublicKeys → Inner T
  zero_amount : PublicKeys → Inner T

-- A signed aggregate transaction: the cosigners sign besides the signer.
pub record Aggregate (T : Type 0) : Type 0 where
  pub inner : List (Inner T)
  pub signer : Keys
  pub cosigners : List Keys
  pub fee : Fee

-- A signed transaction; the lock is of funds for the aggregate, by its signer.
pub data Payload (T : Type 0) : Type 0 where
  simple : T → Keys → Fee → Payload T
  complete : Aggregate T → Payload T
  bonded : Aggregate T → Payload T
  lock_funds : Aggregate T → Fee → Payload T

-- What was announced, and whether it was confirmed.
abbrev pub Log : Type 0 → Type 0
Log T = List (Payload T × Bool)

pub record World (T : Type 0) : Type 0 where
  pub answers : List Bool
  pub typed : List Text
  pub sent : Log T

-- Whether the network confirms a payload, by what was sent before.
abbrev pub Network : Type 0 → Type 0
Network T = Log T → Payload T → Bool

module _ {T : Type 0} where
  abbrev answer_of : List Bool → World T → Outcome (World T) Bool
  answer_of [] w = waiting w
  answer_of (a ∷ answers) w = done a (record w { answers = answers })

  -- A prompt of type `confirm`.
  unfoldable pub confirm : Action (World T) Bool
  confirm w = answer_of w.answers w

  unfoldable pub set_typed : List Text → Action (World T) (Unit {0})
  set_typed typed w = done tt (record w { typed = typed })

  -- `transactionService.announce` and `announceAggregateBonded`: false is a rejection, which the
  -- callers catch.
  unfoldable pub send : Network T → Payload T → Action (World T) Bool
  send network p w = done (network w.sent p) (record w { sent = (p, network w.sent p) ∷ w.sent })
