-- ===== src/Link.antt =====
-- src/service/LinkService.ts: the transactions that link or unlink the keys of a node and its main
-- account. The answers of the user to the questions of `prompt` are a list that is used up in order;
-- a question with no answer left has the default, no. A transaction factory is an argument.
pub mod Voting
pub mod Order
pub mod Capacity
pub mod Balance
pub mod Overlap
pub mod Disjoint
pub mod SingleKey
mod Examples
use symbol_bootstrap.Base.{
  ℕ, Bool, true, false, not, ◌&&◌, ◌||◌, Option, none, some, List, [], ◌∷◌, ◌++◌, or_else, leb,
  if◌then◌else◌,
}
use symbol_bootstrap.Base.Text.{Text, text_eq, to_upper_case}
use symbol_bootstrap.Voting.File.{VotingKeyAccount}

-- `LinkAction` of symbol-sdk: Unlink is 0 and Link is 1.
pub data LinkAction : Type 0 where
  unlink link : LinkAction

pub record KeyAccount : Type 0 where
  pub public_key : Text

-- `none` for `removeOldLinked` is undefined.
pub record LinkParams : Type 0 where
  pub unlink_mode : Bool
  pub ready : Bool
  pub remove_old_linked : Option Bool

abbrev pub Answers : Type 0
Answers = List Bool

abbrev ask : Answers → Bool × Answers
ask [] = (false, [])
ask (a ∷ answers) = (a, answers)

unfoldable pub confirm_unlink : LinkParams → Answers → Bool × Answers
confirm_unlink params answers = elim params.remove_old_linked [
  | some b ↦ (b, answers)
  | none ↦ if params.ready then (true, answers) else ask answers
]

unfoldable pub is_same_key : KeyAccount → KeyAccount → Bool
is_same_key a b = text_eq (to_upper_case a.public_key) (to_upper_case b.public_key)

module _ {T : Type 0} (params : LinkParams) (factory : KeyAccount → LinkAction → T) where
  abbrev pub when_confirmed : Bool × Answers → List T → List T × Answers
  when_confirmed (confirmed, answers) ts = (if confirmed then ts else [], answers)

  -- `addTransaction`, for the remote and the VRF key.
  unfoldable pub add_transaction : Answers → Option KeyAccount → KeyAccount → List T × Answers
  add_transaction answers none account =
      (if params.unlink_mode then [] else factory account link ∷ [], answers)
  add_transaction answers (some linked) account =
      if params.unlink_mode
      then if is_same_key account linked
        then (factory account unlink ∷ [], answers)
        else when_confirmed (confirm_unlink params answers) (factory linked unlink ∷ [])
      else if is_same_key account linked
      then ([], answers)
      else when_confirmed (confirm_unlink params answers)
          (factory linked unlink ∷ factory account link ∷ [])

unfoldable pub overlaps_voting_accounts : VotingKeyAccount → VotingKeyAccount → Bool
overlaps_voting_accounts x y = leb y.start_epoch x.end_epoch && leb x.start_epoch y.end_epoch
