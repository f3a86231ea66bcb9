-- ===== src/Action.antt =====
-- Code that changes a state, may throw, and may wait for the user for ever: what it did before stays
-- done. A `do` block of actions is the body of an `async` method.
pub mod Keeps
pub mod Gives
use symbol_bootstrap.Base.{Option, none, some}
use symbol_bootstrap.Base.Result.{Error, Result, returned, raised}

pub data Outcome (S A : Type 0) : Type 0 where
  waiting : S → Outcome S A
  thrown : Error → S → Outcome S A
  done : A → S → Outcome S A

abbrev pub Action : Type 0 → Type 0 → Type 0
Action S A = S → Outcome S A

-- The state in which the code ends or waits.
abbrev pub end_state : {S A : Type 0} → Outcome S A → S
end_state (waiting s) = s
end_state (thrown e s) = s
end_state (done a s) = s

module _ {S A : Type 0} where
  unfoldable pub pure : A → Action S A
  pure a s = done a s

  unfoldable pub throw : Error → Action S A
  throw e s = thrown e s

  -- Code that waits for an answer that does not come.
  unfoldable pub wait : Action S A
  wait s = waiting s

  abbrev outcome_of : Result A → S → Outcome S A
  outcome_of (raised e) s = thrown e s
  outcome_of (returned a) s = done a s

  -- Code that does not touch the state.
  unfoldable pub lift : Result A → Action S A
  lift r s = outcome_of r s

  unfoldable pub gets : (S → A) → Action S A
  gets f s = done (f s) s

module _ {S A B : Type 0} where
  abbrev pub after : Outcome S A → (A → Action S B) → Outcome S B
  after (waiting s) f = waiting s
  after (thrown e s) f = thrown e s
  after (done a s) f = f a s

  infixl 5 ◌>>=◌ ◌>>◌
  unfoldable pub ◌>>=◌ : Action S A → (A → Action S B) → Action S B
  unfolding pure throw wait lift gets
  ◌>>=◌ m f s = after (m s) f

  abbrev pub ◌>>◌ : Action S A → Action S B → Action S B
  m >> n = m >>= λ _. n

module _ {X S A : Type 0} where
  -- A test whether a value is there.
  unfoldable pub case_option : Option X → Action S A → (X → Action S A) → Action S A
  case_option none m f = m
  case_option (some x) m f = f x
