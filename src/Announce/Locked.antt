-- ===== src/Announce/Locked.antt =====
-- Aggregate bonded transactions and their locks.
use symbol_bootstrap.Base.{ℕ, ◌≡◌, refl, Bool, true, List, [], ◌∷◌, Bool-cases, inl, inr}
use symbol_bootstrap.Base.Int.{ℤ}
use symbol_bootstrap.Base.Text.{Text}
use symbol_bootstrap.Account.{Keys}
use symbol_bootstrap.Action.{pure, ◌>>=◌, end_state}
use symbol_bootstrap.Action.Keeps.{Keeps, keeps_rules}
use symbol_bootstrap.Announce.{
  Chain, Inner, Aggregate, Payload, simple, complete, bonded, lock_funds, Fee, Log, World, Network,
  answer_of, confirm, set_typed, send,
}
use symbol_bootstrap.Announce.Send.{
  AnnounceParams, should_announce, announce_simple, announce_aggregate_complete, lock_of,
  send_bonded, announce_aggregate_bonded,
}
use symbol_bootstrap.Announce.Nodes.{
  AnnouncedNode, TransactionFactoryParams, Announcement, Accounts, announce,
}
use symbol_bootstrap.Announce.Induction.{announce-Keeps}

-- A bonded aggregate stands behind the lock of funds for it, which was confirmed.
abbrev pub IsPreceded : {T : Type 0} → Payload T → Log T → Type 0
IsPreceded {T} (bonded a) log =
    (fee : Fee) × (before : Log T) × (log ≡ (lock_funds a fee, true) ∷ before)
IsPreceded (simple t k f) log = Unit
IsPreceded (complete a) log = Unit
IsPreceded (lock_funds a f) log = Unit

abbrev pub IsLockedLog : {T : Type 0} → Log T → Type 0
IsLockedLog [] = Unit
IsLockedLog ((p, b) ∷ log) = IsPreceded p log × IsLockedLog log

abbrev pub IsLocked : {T : Type 0} → World T → Type 0
IsLocked w = IsLockedLog w.sent

module _ {T : Type 0} where
  answer_of-IsLocked :
      (answers : List Bool) (w : World T) → IsLocked w → IsLocked (end_state (answer_of answers w))
  answer_of-IsLocked [] w h = h
  answer_of-IsLocked (a ∷ answers) w h = h

  confirm-IsLocked : Keeps {S = World T} IsLocked confirm
  unfolding confirm
  confirm-IsLocked = record { from = λ w h. answer_of-IsLocked w.answers w h }

  set_typed-IsLocked : (typed : List Text) → Keeps {S = World T} IsLocked (set_typed typed)
  unfolding set_typed
  set_typed-IsLocked typed = record { from = λ w h. h }

  module _ (network : Network T) (chain : Chain) (params : AnnounceParams) where
    should_announce-IsLocked :
        (p : Payload T) → Keeps IsLocked (should_announce network chain params p)
    unfolding should_announce
    should_announce-IsLocked p = search (keeps_rules, confirm-IsLocked)

    send_simple-IsLocked :
        (t : T) (signer : Keys) (fee : Fee) → Keeps IsLocked (send network (simple t signer fee))
    unfolding send
    send_simple-IsLocked t signer fee = record { from = λ w h. (tt, h) }

    send_complete-IsLocked : (a : Aggregate T) → Keeps IsLocked (send network (complete a))
    unfolding send
    send_complete-IsLocked a = record { from = λ w h. (tt, h) }

    -- The lock is in the log when the aggregate is sent.
    send_bonded-IsLocked : (a : Aggregate T) → Keeps IsLocked (send_bonded network chain params a)
    unfolding send_bonded send ◌>>=◌ pure
    send_bonded-IsLocked a = record {
      from = λ w h. elim (Bool-cases (network w.sent (lock_of network chain params a))) [
        | inl e ↦ rw e ((_, w.sent, refl), (tt, h))
        | inr e ↦ rw e (tt, h)
      ];
    }

    announce_simple-IsLocked :
        (signer : Keys) (t : T) → Keeps IsLocked (announce_simple network chain params signer t)
    unfolding announce_simple
    announce_simple-IsLocked signer t =
        search (keeps_rules, should_announce-IsLocked, send_simple-IsLocked)

    announce_aggregate_complete-IsLocked :
        (signer : Keys) (inner : List (Inner T)) (required : ℤ) (cosigners : List Keys)
        → Keeps IsLocked
            (announce_aggregate_complete network chain params signer inner required cosigners)
    unfolding announce_aggregate_complete
    announce_aggregate_complete-IsLocked signer inner required cosigners =
        search (keeps_rules, should_announce-IsLocked, send_complete-IsLocked)

    announce_aggregate_bonded-IsLocked :
        (signer : Keys) (inner : List (Inner T)) (required : ℤ) (cosigners : List Keys)
        → Keeps IsLocked
            (announce_aggregate_bonded network chain params signer inner required cosigners)
    unfolding announce_aggregate_bonded
    announce_aggregate_bonded-IsLocked signer inner required cosigners =
        search (keeps_rules, should_announce-IsLocked, send_bonded-IsLocked) depth 9

-- Whatever the nodes, the accounts and the answers are, and also where it throws or waits,
-- `announce` never announces an aggregate bonded transaction but directly behind the lock of funds
-- for it, which was confirmed. This is for a factory that announces none by itself.
pub announce-IsLocked :
    {T : Type 0} (a : Announcement T) (chain : Chain) (accounts : ℕ → Accounts)
    (nodes : List AnnouncedNode) (w : World T)
    → ((p : TransactionFactoryParams) → Keeps IsLocked (a.factory.create_transactions p))
    → IsLocked w
    → IsLocked (end_state (announce a chain accounts nodes w))
announce-IsLocked a chain accounts nodes w of_factory h =
    (announce-Keeps IsLocked a
        (record {
          of_confirm = confirm-IsLocked;
          of_typed = set_typed-IsLocked;
          of_simple = λ c. announce_simple-IsLocked a.network c a.params;
          of_complete = λ c. announce_aggregate_complete-IsLocked a.network c a.params;
          of_bonded = λ c. announce_aggregate_bonded-IsLocked a.network c a.params;
          of_factory = of_factory;
        })
        chain accounts nodes).from
      w h
