-- ===== src/Link/Overlap.antt =====
-- Lists of voting keys in which no two overlap.
use symbol_bootstrap.Base.{
  ℕ, ◌≤◌, ◌≡◌, refl, Bool, true, none, some, List, [], ◌∷◌, ◌++◌, find?, filter, arith, Bool-cases,
  inl, inr, All,
}
use symbol_bootstrap.Voting.File.{VotingKeyAccount}
use symbol_bootstrap.Link.{overlaps_voting_accounts}
use symbol_bootstrap.Link.Voting.{remove_overlapping}
use symbol_bootstrap.Link.Balance.{count, count-snoc, one}

-- How many of the keys the key overlaps.
abbrev pub overlapping : VotingKeyAccount → List VotingKeyAccount → ℕ
overlapping a xs = count (overlaps_voting_accounts a) xs

-- No two of the keys overlap.
abbrev pub IsDisjoint : List VotingKeyAccount → Type 0
IsDisjoint [] = Unit
IsDisjoint (x ∷ xs) = (overlapping x xs ≡ 0) × IsDisjoint xs

pub overlaps_sym :
    (a b : VotingKeyAccount) → overlaps_voting_accounts a b ≡ overlaps_voting_accounts b a
unfolding overlaps_voting_accounts
overlaps_sym a b = ground arith

pub find-none :
    (a : VotingKeyAccount) (xs : List VotingKeyAccount)
    → find? (overlaps_voting_accounts a) xs ≡ none
    → overlapping a xs ≡ 0
unfolding count
find-none a [] h = refl
find-none a (x ∷ xs) h = elim (Bool-cases (overlaps_voting_accounts a x)) [
  | inl e ↦ ground (arith, rw e at h)
  | inr e ↦ rw e (omega (arith, find-none a xs (rw e at h)))
]

pub find-overlaps :
    (a : VotingKeyAccount) (xs : List VotingKeyAccount) (l : VotingKeyAccount)
    → find? (overlaps_voting_accounts a) xs ≡ some l
    → overlaps_voting_accounts a l ≡ true
find-overlaps a [] l h = cc
find-overlaps a (x ∷ xs) l h = elim (Bool-cases (overlaps_voting_accounts a x)) [
  | inl e ↦ let same : x ≡ l = ground (arith, rw e at h) in rw (← same) e
  | inr e ↦ find-overlaps a xs l (rw e at h)
]

-- Taking keys away makes no key overlap more of them.
abbrev pub IsFewer : List VotingKeyAccount → List VotingKeyAccount → Type 0
IsFewer xs ys = (p : VotingKeyAccount → Bool) → count p xs ≤ count p ys

pub remove-IsFewer :
    (a : VotingKeyAccount) (xs : List VotingKeyAccount) → IsFewer (remove_overlapping a xs) xs
unfolding remove_overlapping count
remove-IsFewer a [] p = omega arith
remove-IsFewer a (x ∷ xs) p = elim (Bool-cases (overlaps_voting_accounts a x)) [
  | inl e ↦ rw e (omega arith)
  | inr e ↦ rw e (omega (arith, remove-IsFewer a xs p))
]

pub remove-IsDisjoint :
    (a : VotingKeyAccount) (xs : List VotingKeyAccount)
    → IsDisjoint xs
    → IsDisjoint (remove_overlapping a xs)
unfolding remove_overlapping
remove-IsDisjoint a [] h = tt
remove-IsDisjoint a (x ∷ xs) (h, hs) = elim (Bool-cases (overlaps_voting_accounts a x)) [
  | inl e ↦ rw e hs
  | inr e ↦ rw e (
    omega (arith, h, remove-IsFewer a xs (overlaps_voting_accounts x)),
    remove-IsDisjoint a xs hs,
  )
]

pub snoc-IsDisjoint :
    (xs : List VotingKeyAccount) (a : VotingKeyAccount)
    → IsDisjoint xs
    → overlapping a xs ≡ 0
    → IsDisjoint (xs ++ a ∷ [])
unfolding count
snoc-IsDisjoint [] a h k = (refl, tt)
snoc-IsDisjoint (x ∷ xs) a (h, hs) k =
    let apart : one (overlaps_voting_accounts x a) ≡ 0 = rw (overlaps_sym x a) (omega (arith, k)) in
    (
      omega (arith, h, apart, count-snoc (overlaps_voting_accounts x) xs a),
      snoc-IsDisjoint xs a hs (omega (arith, k)),
    )

pub filter-IsFewer :
    (q : VotingKeyAccount → Bool) (xs : List VotingKeyAccount) → IsFewer (filter q xs) xs
unfolding count
filter-IsFewer q [] p = omega arith
filter-IsFewer q (x ∷ xs) p = elim (Bool-cases (q x)) [
  | inl e ↦ rw e (omega (arith, filter-IsFewer q xs p))
  | inr e ↦ rw e (omega (arith, filter-IsFewer q xs p))
]

pub filter-IsDisjoint :
    (q : VotingKeyAccount → Bool) (xs : List VotingKeyAccount)
    → IsDisjoint xs
    → IsDisjoint (filter q xs)
filter-IsDisjoint q [] h = tt
filter-IsDisjoint q (x ∷ xs) (h, hs) = elim (Bool-cases (q x)) [
  | inl e ↦ rw e (
    omega (arith, h, filter-IsFewer q xs (overlaps_voting_accounts x)),
    filter-IsDisjoint q xs hs,
  )
  | inr e ↦ rw e (filter-IsDisjoint q xs hs)
]

-- Every key file overlaps at most one of the keys.
abbrev pub IsSingle : List VotingKeyAccount → List VotingKeyAccount → Type 0
IsSingle files xs = All (λ f. overlapping f xs ≤ 1) files

pub filter-IsSingle :
    (q : VotingKeyAccount → Bool) (files xs ys : List VotingKeyAccount)
    → IsFewer ys xs
    → IsSingle files xs
    → IsSingle (filter q files) ys
filter-IsSingle q [] xs ys fewer h = tt
filter-IsSingle q (f ∷ files) xs ys fewer (h, hs) = elim (Bool-cases (q f)) [
  | inl e ↦
      rw e (
        omega (arith, h, fewer (overlaps_voting_accounts f)),
        filter-IsSingle q files xs ys fewer hs,
      )
  | inr e ↦ rw e (filter-IsSingle q files xs ys fewer hs)
]

pub snoc-IsSingle :
    (files xs ys : List VotingKeyAccount) (a : VotingKeyAccount)
    → IsFewer ys xs
    → overlapping a files ≡ 0
    → IsSingle files xs
    → IsSingle files (ys ++ a ∷ [])
unfolding count
snoc-IsSingle [] xs ys a fewer apart h = tt
snoc-IsSingle (f ∷ files) xs ys a fewer apart (h, hs) =
    let free : one (overlaps_voting_accounts f a) ≡ 0 =
      rw (overlaps_sym f a) (omega (arith, apart)) in
    (
      omega (
        arith,
        h,
        free,
        fewer (overlaps_voting_accounts f),
        count-snoc (overlaps_voting_accounts f) ys a,
      ),
      snoc-IsSingle files xs ys a fewer (omega (arith, apart)) hs,
    )

pub fewer-IsSingle :
    (files xs ys : List VotingKeyAccount) → IsFewer ys xs → IsSingle files xs → IsSingle files ys
fewer-IsSingle [] xs ys fewer h = tt
fewer-IsSingle (f ∷ files) xs ys fewer (h, hs) =
    (omega (arith, h, fewer (overlaps_voting_accounts f)), fewer-IsSingle files xs ys fewer hs)
