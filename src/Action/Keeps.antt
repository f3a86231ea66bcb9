-- ===== src/Action/Keeps.antt =====
-- What every action of a piece of code keeps true, wherever the code ends.
use symbol_bootstrap.Base.{Bool, true, false, Option, none, some, if◌then◌else◌}
use symbol_bootstrap.Base.Result.{Error, Result, returned, raised}
use symbol_bootstrap.Action.{
  Outcome, waiting, thrown, done, Action, end_state, after, pure, throw, wait, lift, gets, ◌>>=◌,
  case_option,
}

pub record Keeps {S A : Type 0} (P : S → Type 0) (m : Action S A) : Type 0 where
  pub from : (s : S) → P s → P (end_state (m s))

module _ {S A : Type 0} {P : S → Type 0} where
  pub Keeps-pure : (a : A) → Keeps P (pure a)
  unfolding pure
  Keeps-pure a = record { from = λ s h. h }

  pub Keeps-throw : (e : Error) → Keeps P (throw {A = A} e)
  unfolding throw
  Keeps-throw e = record { from = λ s h. h }

  pub Keeps-wait : Keeps P (wait {A = A})
  unfolding wait
  Keeps-wait = record { from = λ s h. h }

  pub Keeps-lift : (r : Result A) → Keeps P (lift r)
  unfolding lift
  Keeps-lift (raised e) = record { from = λ s h. h }
  Keeps-lift (returned a) = record { from = λ s h. h }

  pub Keeps-gets : (f : S → A) → Keeps P (gets f)
  unfolding gets
  Keeps-gets f = record { from = λ s h. h }

  pub Keeps-if :
      (b : Bool) (m n : Action S A) → Keeps P m → Keeps P n → Keeps P (if b then m else n)
  Keeps-if true m n h k = h
  Keeps-if false m n h k = k

module _ {S A B : Type 0} {P : S → Type 0} where
  Keeps-after :
      (o : Outcome S A) (f : A → Action S B)
      → ((a : A) → Keeps P (f a))
      → P (end_state o)
      → P (end_state (after o f))
  Keeps-after (waiting s) f k h = h
  Keeps-after (thrown e s) f k h = h
  Keeps-after (done a s) f k h = (k a).from s h

  pub Keeps-bind :
      (m : Action S A) (f : A → Action S B)
      → Keeps P m
      → ((a : A) → Keeps P (f a))
      → Keeps P (m >>= f)
  unfolding ◌>>=◌
  Keeps-bind m f h k = record { from = λ s p. Keeps-after (m s) f k (h.from s p) }

module _ {X S A : Type 0} {P : S → Type 0} where
  pub Keeps-case_option :
      (o : Option X) (m : Action S A) (f : X → Action S A)
      → Keeps P m
      → ((x : X) → Keeps P (f x))
      → Keeps P (case_option o m f)
  unfolding case_option
  Keeps-case_option none m f h k = h
  Keeps-case_option (some x) m f h k = k x

pub ruleset keeps_rules = (
  Keeps-pure, Keeps-throw, Keeps-wait, Keeps-lift, Keeps-gets, Keeps-if, Keeps-bind,
  Keeps-case_option,
)
