-- ===== src/Action/Gives.antt =====
-- What holds of the result of a piece of code, whenever it gives one.
use symbol_bootstrap.Base.{◌≡◌, refl, Bool, true, false, Option, none, some, if◌then◌else◌}
use symbol_bootstrap.Action.{
  Outcome, waiting, thrown, done, Action, after, pure, wait, ◌>>=◌, case_option,
}

pub record Gives {S A : Type 0} (Q : A → Type 0) (m : Action S A) : Type 0 where
  pub from : (s : S) (a : A) (s' : S) → m s ≡ done a s' → Q a

done_value : {S A : Type 0} (a b : A) (s s' : S) → done a s ≡ done b s' → a ≡ b
done_value a b s s' h = cc

module _ {S A : Type 0} {Q : A → Type 0} where
  pub Gives-pure : (a : A) → Q a → Gives {S = S} Q (pure a)
  unfolding pure
  Gives-pure a q = record { from = λ s b s' h. rw (← done_value a b s s' h) q }

  pub Gives-wait : Gives {S = S} Q wait
  unfolding wait
  Gives-wait = record { from = λ s b s' h. cc }

  pub Gives-if :
      (b : Bool) (m n : Action S A) → Gives Q m → Gives Q n → Gives Q (if b then m else n)
  Gives-if true m n h k = h
  Gives-if false m n h k = k

module _ {S A B : Type 0} {Q : B → Type 0} where
  Gives-after :
      (o : Outcome S A) (f : A → Action S B) (b : B) (s' : S)
      → ((a : A) → Gives Q (f a))
      → after o f ≡ done b s'
      → Q b
  Gives-after (waiting s) f b s' k h = cc
  Gives-after (thrown e s) f b s' k h = cc
  Gives-after (done a s) f b s' k h = (k a).from s b s' h

  pub Gives-bind :
      (m : Action S A) (f : A → Action S B) → ((a : A) → Gives Q (f a)) → Gives Q (m >>= f)
  unfolding ◌>>=◌
  Gives-bind m f k = record { from = λ s b s' h. Gives-after (m s) f b s' k h }

module _ {X S A : Type 0} {Q : A → Type 0} where
  pub Gives-case_option :
      (o : Option X) (m : Action S A) (f : X → Action S A)
      → Gives Q m
      → ((x : X) → o ≡ some x → Gives Q (f x))
      → Gives Q (case_option o m f)
  unfolding case_option
  Gives-case_option none m f h k = h
  Gives-case_option (some x) m f h k = k x refl
