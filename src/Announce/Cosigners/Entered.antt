-- ===== src/Announce/Cosigners/Entered.antt =====
-- Which accounts `promptAccounts` returns.
use symbol_bootstrap.Base.{
  ℕ, ◌+◌, ◌≤◌, ◌≡◌, refl, ap, Bool, some, List, [], ◌∷◌, ◌++◌, find?, arith, Bool-cases, inl, inr,
}
use symbol_bootstrap.Base.Counting.{one, count, count-snoc}
use symbol_bootstrap.Base.Text.{Text, text_eq, text_eq-eq}
use symbol_bootstrap.Account.{Keys, Sdk}
use symbol_bootstrap.Action.Gives.{
  Gives, Gives-pure, Gives-wait, Gives-if, Gives-bind, Gives-case_option,
}
use symbol_bootstrap.Action.{Action, done, gets, ◌>>=◌}
use symbol_bootstrap.Announce.{World}
use symbol_bootstrap.Announce.Cosigners.{
  remove_address, after_accepted, enter_accounts, prompt_accounts,
}

-- The addresses of accounts.
unfoldable pub addresses_of : List Keys → List Text
addresses_of [] = []
addresses_of (k ∷ ks) = k.address ∷ addresses_of ks

pub addresses_of-append :
    (xs ys : List Keys) → addresses_of (xs ++ ys) ≡ addresses_of xs ++ addresses_of ys
unfolding addresses_of
addresses_of-append [] ys = refl
addresses_of-append (x ∷ xs) ys = ap (λ zs. x.address ∷ zs) (addresses_of-append xs ys)

-- An expected address is taken away once.
pub count-remove_address :
    (p : Text → Bool) (a e : Text) (xs : List Text)
    → find? (λ b. text_eq b a) xs ≡ some e
    → count p (remove_address a xs) + one (p a) ≡ count p xs
unfolding count remove_address
count-remove_address p a e [] h = cc
count-remove_address p a e (x ∷ xs) h = elim (Bool-cases (text_eq x a)) [
  | inl t ↦ rw t (rw (text_eq-eq x a t) (omega arith))
  | inr t ↦ rw t (omega (arith, count-remove_address p a e xs (rw t at h)))
]

-- The accounts are among the expected ones.
abbrev pub IsExpected : List Text → List Keys → Type 0
IsExpected expected accounts =
    (p : Text → Bool) → count p (addresses_of accounts) ≤ count p expected

-- What is still allowed, and what was provided, make up what was expected.
abbrev IsShared : List Text → List Text → List Keys → Type 0
IsShared expected allowed provided =
    (p : Text → Bool) → count p allowed + count p (addresses_of provided) ≡ count p expected

IsShared-IsExpected :
    (expected allowed : List Text) (provided : List Keys)
    → IsShared expected allowed provided
    → IsExpected expected provided
IsShared-IsExpected expected allowed provided h p = omega (arith, h p)

IsShared-remove :
    (expected allowed : List Text) (provided : List Keys) (k : Keys) (e : Text)
    → find? (λ b. text_eq b k.address) allowed ≡ some e
    → IsShared expected allowed provided
    → IsShared expected (remove_address k.address allowed) (provided ++ k ∷ [])
unfolding addresses_of
IsShared-remove expected allowed provided k e f h p =
    rw (addresses_of-append provided (k ∷ []), count-snoc p (addresses_of provided) k.address)
      (omega (arith, h p, count-remove_address p k.address e allowed f))

module _ {T : Type 0} (sdk : Sdk) (n : ℕ) (expected : List Text) where
  after_accepted-IsExpected :
      (left : List Text) (accounts : List Keys) (again : Action (World T) (List Keys))
      → IsExpected expected accounts
      → Gives (IsExpected expected) again
      → Gives (IsExpected expected) (after_accepted sdk n left accounts again)
  unfolding after_accepted
  after_accepted-IsExpected [] accounts again h g = Gives-pure accounts h
  after_accepted-IsExpected (_ ∷ _) accounts again h g =
      let done = Gives-pure accounts h in
      Gives-if _ _ _ done (Gives-bind _ _ (λ more. Gives-if more _ _ g done))

  enter_accounts-IsExpected :
      (typed allowed : List Text) (provided : List Keys)
      → IsShared expected allowed provided
      → Gives (IsExpected expected) (enter_accounts {T = T} sdk n typed allowed provided)
  unfolding enter_accounts
  enter_accounts-IsExpected [] allowed provided h = Gives-wait
  enter_accounts-IsExpected (private_key ∷ typed) allowed provided h =
      let again = enter_accounts-IsExpected typed allowed provided h in
      Gives-bind _ _ λ _. Gives-if _ _ _ again (
        Gives-bind _ _ λ k. Gives-case_option _ _ _ again λ e f.
          let shared = IsShared-remove expected allowed provided k e f h in
          after_accepted-IsExpected _ _ _ (IsShared-IsExpected expected _ _ shared)
            (enter_accounts-IsExpected typed _ _ shared))

  -- Whatever private keys the user enters, the accounts that `promptAccounts` returns are expected
  -- ones, and none is returned more often than it is expected: for any test of addresses, at most as
  -- many of the accounts pass as of the expected addresses.
  pub prompt_accounts-IsExpected :
      (w w' : World T) (accounts : List Keys)
      → prompt_accounts sdk n expected w ≡ done accounts w'
      → (p : Text → Bool) → count p (addresses_of accounts) ≤ count p expected
  unfolding prompt_accounts gets ◌>>=◌ count addresses_of
  prompt_accounts-IsExpected w w' accounts h =
      (enter_accounts-IsExpected w.typed expected [] (λ p. omega arith)).from w accounts w' h
