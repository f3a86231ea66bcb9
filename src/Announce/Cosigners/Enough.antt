-- ===== src/Announce/Cosigners/Enough.antt =====
-- When `promptAccounts` is done.
use symbol_bootstrap.Base.{
  ℕ, ◌+◌, append_assoc, ◌≤◌, ◌≡◌, refl, ap, ◌∙◌, Bool, true, false, some, List, [], ◌∷◌, ◌++◌,
  length, length-append, find?, ◌==◌, arith, All, Bool-cases, inl, inr,
}
use symbol_bootstrap.Base.Counting.{count}
use symbol_bootstrap.Base.Text.{Text, text_eq, text_eq_refl, is_empty}
use symbol_bootstrap.Base.Result.{returned}
use symbol_bootstrap.Account.{Keys, Sdk}
use symbol_bootstrap.Action.{Action, done, pure, lift, gets, case_option, ◌>>=◌}
use symbol_bootstrap.Announce.{World, confirm, set_typed}
use symbol_bootstrap.Announce.Cosigners.{
  remove_address, after_accepted, enter_accounts, prompt_accounts,
}
use symbol_bootstrap.Announce.Cosigners.Entered.{addresses_of, IsExpected, count-remove_address}

-- The private key of each account is one that the SDK makes the account of.
abbrev pub IsAccountOf : Sdk → Keys → Type 0
IsAccountOf sdk k =
    (is_empty k.private_key ≡ false) × (sdk.create_from_private_key k.private_key ≡ returned k)

unfoldable pub private_keys : List Keys → List Text
private_keys [] = []
private_keys (k ∷ ks) = k.private_key ∷ private_keys ks

-- The user answers yes to the next `n` questions.
abbrev pub IsWilling : {T : Type 0} → ℕ → World T → Type 0
IsWilling n w = All (λ b. b ≡ true) w.answers × (n ≤ length w.answers)

find-counted :
    (a : Text) (xs : List Text)
    → 1 ≤ count (λ b. text_eq b a) xs
    → (e : Text) × (find? (λ b. text_eq b a) xs ≡ some e)
unfolding count
find-counted a [] h = ground arith
find-counted a (x ∷ xs) h = elim (Bool-cases (text_eq x a)) [
  | inl t ↦ rw t (x, refl)
  | inr t ↦ rw t (find-counted a xs (omega (arith, rw t at h)))
]

IsExpected-first :
    (k : Keys) (ks : List Keys) (allowed : List Text)
    → IsExpected allowed (k ∷ ks)
    → (e : Text) × (find? (λ b. text_eq b k.address) allowed ≡ some e)
unfolding count addresses_of
IsExpected-first k ks allowed h =
    find-counted k.address allowed
      (omega (arith, rw (text_eq_refl k.address) at (h (λ b. text_eq b k.address))))

IsExpected-rest :
    (k : Keys) (ks : List Keys) (allowed : List Text) (e : Text)
    → find? (λ b. text_eq b k.address) allowed ≡ some e
    → IsExpected allowed (k ∷ ks)
    → IsExpected (remove_address k.address allowed) ks
unfolding count addresses_of
IsExpected-rest k ks allowed e f h p =
    omega (arith, h p, count-remove_address p k.address e allowed f)

is_different : (a b : ℕ) → a + 1 ≤ b → (a == b) ≡ false
is_different a b h = ground arith

IsExpected-none : (k : Keys) (ks : List Keys) → IsExpected [] (k ∷ ks) → ⊥
unfolding count addresses_of
IsExpected-none k ks h = omega (arith, h (λ _. true))

module _ {T : Type 0} (sdk : Sdk) (n : ℕ) where
  after_accepted-last :
      (left : List Text) (accounts : List Keys) (again : Action (World T) (List Keys)) (w : World T)
      → length accounts ≡ n
      → after_accepted sdk n left accounts again w ≡ done accounts w
  unfolding after_accepted pure
  after_accepted-last [] accounts again w e = refl
  after_accepted-last (_ ∷ _) accounts again w e = rw (is_same e) refl
    where
      is_same : {a b : ℕ} → a ≡ b → (a == b) ≡ true
      is_same h = ground arith

  after_accepted-more :
      (left : List Text) (accounts ks : List Keys) (k : Keys) (again : Action (World T) (List Keys))
      (answers : List Bool) (w : World T)
      → IsExpected left (k ∷ ks)
      → (length accounts == n) ≡ false
      → w.answers ≡ true ∷ answers
      → after_accepted sdk n left accounts again w ≡ again (record w { answers = answers })
  unfolding after_accepted ◌>>=◌ confirm
  after_accepted-more [] accounts ks k again answers w h d e = absurd (IsExpected-none k ks h)
  after_accepted-more (_ ∷ _) accounts ks k again answers w h d e = rw (d, e) refl

  enter_accounts-entered :
      (k : Keys) (typed allowed : List Text) (provided : List Keys) (e : Text) (w : World T)
      → IsAccountOf sdk k
      → find? (λ b. text_eq b k.address) allowed ≡ some e
      → enter_accounts sdk n (k.private_key ∷ typed) allowed provided w
        ≡ after_accepted sdk n
            (remove_address k.address allowed)
            (provided ++ k ∷ [])
            (enter_accounts sdk n typed (remove_address k.address allowed) (provided ++ k ∷ []))
            (record w { typed = typed })
  unfolding enter_accounts ◌>>=◌ set_typed lift case_option
  enter_accounts-entered k typed allowed provided e w (full, made) f = rw (full, made, f) refl

  enter_accounts-enough :
      (k : Keys) (ks : List Keys) (rest allowed : List Text) (provided : List Keys)
      (answers : List Bool) (w : World T)
      → All (IsAccountOf sdk) (k ∷ ks)
      → IsExpected allowed (k ∷ ks)
      → length provided + length (k ∷ ks) ≡ n
      → w.answers ≡ answers
      → All (λ b. b ≡ true) answers
      → length ks ≤ length answers
      → (w' : World T) × (enter_accounts sdk n (private_keys (k ∷ ks) ++ rest) allowed provided w
          ≡ done (provided ++ k ∷ ks) w')
  unfolding private_keys
  enter_accounts-enough k [] rest allowed provided answers w (made, _) h l a y m =
      let (e, f) = IsExpected-first k [] allowed h in
      (
        record w { typed = rest },
        enter_accounts-entered k rest allowed provided e w made f
            ∙ after_accepted-last _ _ _ _ (length-append provided (k ∷ []) ∙ l),
      )
  enter_accounts-enough k (k₂ ∷ ks) rest allowed provided [] w (made, all) h l a y m = ground arith
  enter_accounts-enough k (k₂ ∷ ks) rest allowed provided (b ∷ answers) w (made, all) h l a (y, ys)
        m =
      let (e, f) = IsExpected-first k (k₂ ∷ ks) allowed h in
      let longer = length-append provided (k ∷ []) in
      let left = IsExpected-rest k (k₂ ∷ ks) allowed e f h in
      let (w', rest_done) =
        enter_accounts-enough k₂ ks rest (remove_address k.address allowed) (provided ++ k ∷ [])
          answers (record w { typed = private_keys (k₂ ∷ ks) ++ rest; answers = answers }) all left
          (omega (arith, longer)) refl ys (omega arith) in
      (
        w',
        enter_accounts-entered k _ allowed provided e w made f
            ∙ after_accepted-more _ _ ks k₂ _ answers _ left
                (is_different _ _ (omega (arith, longer))) (a ∙ ap (λ z. z ∷ answers) y)
            ∙ rest_done
            ∙ ap (λ zs. done zs w') (append_assoc provided (k ∷ []) (k₂ ∷ ks)),
      )

  -- The loop of `promptAccounts` gives a result: when the user enters the private keys of expected
  -- accounts, no account more often than it is expected and as many as the minimal approval, and
  -- answers yes whenever asked to enter another one, then exactly these accounts are returned, whatever
  -- else the user would have entered.
  pub prompt_accounts-enough :
      (k : Keys) (ks : List Keys) (rest expected : List Text) (w : World T)
      → All (IsAccountOf sdk) (k ∷ ks)
      → IsExpected expected (k ∷ ks)
      → length (k ∷ ks) ≡ n
      → All (λ b. b ≡ true) w.answers
      → length ks ≤ length w.answers
      → w.typed ≡ private_keys (k ∷ ks) ++ rest
      → (w' : World T) × (prompt_accounts sdk n expected w ≡ done (k ∷ ks) w')
  unfolding prompt_accounts gets ◌>>=◌
  prompt_accounts-enough k ks rest expected w made h l y m t =
      let (w', e) =
        enter_accounts-enough k ks rest expected [] w.answers w made h (omega arith) refl y m in
      (w', ap (λ typed. enter_accounts sdk n typed expected [] w) t ∙ e)
