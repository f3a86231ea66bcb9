-- ===== src/Announce/Consent.antt =====
-- A user who declines.
use symbol_bootstrap.Base.{ℕ, ◌≡◌, refl, Bool, false, List, [], ◌∷◌, if◌then◌else◌, All}
use symbol_bootstrap.Base.Int.{ℤ}
use symbol_bootstrap.Base.Text.{Text}
use symbol_bootstrap.Account.{Keys}
use symbol_bootstrap.Action.{Action, pure, ◌>>=◌, end_state, after}
use symbol_bootstrap.Action.Keeps.{Keeps}
use symbol_bootstrap.Announce.{
  Chain, Inner, Payload, Log, World, Network, answer_of, confirm, set_typed,
}
use symbol_bootstrap.Announce.Send.{
  AnnounceParams, should_announce, announce_simple, announce_aggregate_complete,
  announce_aggregate_bonded,
}
use symbol_bootstrap.Announce.Nodes.{
  AnnouncedNode, TransactionFactoryParams, Announcement, Accounts, announce,
}
use symbol_bootstrap.Announce.Induction.{announce-Keeps}

-- Every answer to come is no, and what was sent is `log`.
abbrev pub IsDeclined : {T : Type 0} → Log T → World T → Type 0
IsDeclined log w = All (λ b. b ≡ false) w.answers × (w.sent ≡ log)

module _ {T : Type 0} (log : Log T) where
  answer_of-IsDeclined :
      (answers : List Bool) (w : World T)
      → All (λ b. b ≡ false) answers
      → answers ≡ w.answers
      → w.sent ≡ log
      → IsDeclined log (end_state (answer_of answers w))
  answer_of-IsDeclined [] w _ e s = (rw (← e) tt, s)
  answer_of-IsDeclined (a ∷ answers) w (_, h) e s = (h, s)

  confirm-IsDeclined : Keeps (IsDeclined log) confirm
  unfolding confirm
  confirm-IsDeclined = record { from = λ w (h, s). answer_of-IsDeclined w.answers w h refl s }

  set_typed-IsDeclined : (typed : List Text) → Keeps (IsDeclined log) (set_typed typed)
  unfolding set_typed
  set_typed-IsDeclined typed = record { from = λ w h. h }

  -- What follows a question that is answered no.
  answered_no :
      (answers : List Bool) (w : World T) (agree : Action (World T) Bool)
      → All (λ b. b ≡ false) answers
      → answers ≡ w.answers
      → w.sent ≡ log
      → IsDeclined log
          (end_state (after (answer_of answers w) (λ agreed. if agreed then agree else pure false)))
  unfolding pure
  answered_no [] w agree _ e s = (rw (← e) tt, s)
  answered_no (a ∷ answers) w agree (n, h) e s = rw n (h, s)

  module _ (network : Network T) (chain : Chain) (params : AnnounceParams)
      (asks : params.ready ≡ false) where
    should_announce-IsDeclined :
        (p : Payload T) (agree : Action (World T) Bool)
        → Keeps (IsDeclined log) (
            should_announce network chain params p >>= λ agreed.
            if agreed then agree else pure false)
    unfolding should_announce confirm ◌>>=◌
    should_announce-IsDeclined p agree = record {
      from = λ w (h, s). rw asks (answered_no w.answers w agree h refl s);
    }

    announce_simple-IsDeclined :
        (signer : Keys) (t : T)
        → Keeps (IsDeclined log) (announce_simple network chain params signer t)
    unfolding announce_simple
    announce_simple-IsDeclined signer t = should_announce-IsDeclined _ _

    announce_aggregate_complete-IsDeclined :
        (signer : Keys) (inner : List (Inner T)) (required : ℤ) (cosigners : List Keys)
        → Keeps
            (IsDeclined log)
            (announce_aggregate_complete network chain params signer inner required cosigners)
    unfolding announce_aggregate_complete
    announce_aggregate_complete-IsDeclined signer inner required cosigners =
        should_announce-IsDeclined _ _

    announce_aggregate_bonded-IsDeclined :
        (signer : Keys) (inner : List (Inner T)) (required : ℤ) (cosigners : List Keys)
        → Keeps
            (IsDeclined log)
            (announce_aggregate_bonded network chain params signer inner required cosigners)
    unfolding announce_aggregate_bonded
    announce_aggregate_bonded-IsDeclined signer inner required cosigners =
        should_announce-IsDeclined _ _

-- Without `--ready`, a user who answers no to every question has nothing announced, whatever the
-- nodes and the accounts are and whichever kind of announcement each node needs. This is for a
-- factory that announces nothing by itself.
pub announce-IsDeclined :
    {T : Type 0} (a : Announcement T) (chain : Chain) (accounts : ℕ → Accounts)
    (nodes : List AnnouncedNode) (w : World T)
    → a.params.ready ≡ false
    → ((p : TransactionFactoryParams) → Keeps (IsDeclined w.sent) (a.factory.create_transactions p))
    → All (λ b. b ≡ false) w.answers
    → (end_state (announce a chain accounts nodes w)).sent ≡ w.sent
announce-IsDeclined a chain accounts nodes w asks of_factory declined =
    ((announce-Keeps (IsDeclined w.sent) a
        (record {
          of_confirm = confirm-IsDeclined w.sent;
          of_typed = set_typed-IsDeclined w.sent;
          of_simple = λ c. announce_simple-IsDeclined w.sent a.network c a.params asks;
          of_complete =
              λ c. announce_aggregate_complete-IsDeclined w.sent a.network c a.params asks;
          of_bonded = λ c. announce_aggregate_bonded-IsDeclined w.sent a.network c a.params asks;
          of_factory = of_factory;
        })
        chain accounts nodes).from
      w (declined, refl)).1
