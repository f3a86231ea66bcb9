-- ===== src/Announce/Send.antt =====
-- `announceSimple`, `announceAggregateComplete` and `announceAggregateBonded`.
use symbol_bootstrap.Base.{ℕ, Bool, true, false, not, List, filter, ◌==◌, if◌then◌else◌}
use symbol_bootstrap.Base.Int.{ℤ}
use symbol_bootstrap.Base.Text.{text_eq}
use symbol_bootstrap.Account.{Keys}
use symbol_bootstrap.Action.{Action, pure, ◌>>=◌}
use symbol_bootstrap.Announce.{
  Chain, Fee, created, fixed, by_size, by_aggregate, Inner, Aggregate, Payload, simple, complete,
  bonded, lock_funds, World, Network, confirm, send,
}

-- The parameters of a call of `announce` that the methods share; 0 is an undefined fee.
pub record AnnounceParams : Type 0 where
  pub provided_max_fee : ℕ
  pub ready : Bool

-- `if (!providedMaxFee)` the fee is computed.
abbrev pub fee_or : ℕ → Fee → Fee → Fee
fee_or provided given computed = if provided == 0 then computed else given

-- The cosigners have different addresses, so that `a !== signerAccount` is a test on addresses.
abbrev pub other_cosigners : Keys → List Keys → List Keys
other_cosigners signer cosigners = filter (λ k. not (text_eq k.address signer.address)) cosigners

module _ {T : Type 0} (network : Network T) (chain : Chain) (params : AnnounceParams) where
  open params use {provided_max_fee, ready}

  unfoldable pub should_announce : Payload T → Action (World T) Bool
  should_announce p = if ready then pure true else confirm

  unfoldable pub announce_simple : Keys → T → Action (World T) Bool
  announce_simple signer t =
      let payload =
        simple t signer (fee_or provided_max_fee created (by_size chain.min_fee_multiplier)) in
      do agreed ← should_announce payload; if agreed then send network payload else pure false

  abbrev pub aggregate_of : Keys → List (Inner T) → ℤ → List Keys → Aggregate T
  aggregate_of signer inner required cosigners = record {
    inner = inner;
    signer = signer;
    cosigners = other_cosigners signer cosigners;
    fee =
        fee_or provided_max_fee (fixed provided_max_fee)
          (by_aggregate chain.min_fee_multiplier required);
  }

  unfoldable pub announce_aggregate_complete :
      Keys → List (Inner T) → ℤ → List Keys → Action (World T) Bool
  announce_aggregate_complete signer inner required cosigners =
      let payload = complete (aggregate_of signer inner required cosigners) in
      do agreed ← should_announce payload; if agreed then send network payload else pure false

  abbrev pub lock_of : Aggregate T → Payload T
  lock_of a =
      lock_funds a
        (fee_or provided_max_fee (fixed provided_max_fee) (by_size chain.min_fee_multiplier))

  -- The part of `announceAggregateBonded` under `try`.
  unfoldable pub send_bonded : Aggregate T → Action (World T) Bool
  send_bonded a = do
    locked ← send network (lock_of a)
    if locked then send network (bonded a) else pure false

  unfoldable pub announce_aggregate_bonded :
      Keys → List (Inner T) → ℤ → List Keys → Action (World T) Bool
  announce_aggregate_bonded signer inner required cosigners =
      let a = aggregate_of signer inner required cosigners in
      do
        lock_agreed ← should_announce (lock_of a)
        if lock_agreed
            then (do
              agreed ← should_announce (bonded a)
              if agreed then send_bonded a else pure false)
            else pure false
