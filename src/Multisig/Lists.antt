-- ===== src/Multisig/Lists.antt =====
-- What the checks of `validateParams` say of the list of the cosignatories.
use symbol_bootstrap.Base.{
  ◌+◌, ◌≤◌, ◌≡◌, refl, Bool, true, false, not, List, [], ◌∷◌, length, filter, any, arith,
  Bool-cases, inl, inr, ◌⊎◌,
}
use symbol_bootstrap.Base.Counting.{count}
use symbol_bootstrap.Base.Text.{Text, text_eq, text_eq-eq, text_eq_refl}
use symbol_bootstrap.Base.Result.{returned}
use symbol_bootstrap.Multisig.{Address, is_cosignatory, check_additions, check_deletions}

-- The texts of addresses.
unfoldable pub plain_of : List Address → List Text
plain_of [] = []
plain_of (a ∷ rest) = a.plain ∷ plain_of rest

-- No text is there twice.
abbrev pub IsDistinct : List Text → Type 0
IsDistinct xs = (a : Text) → count (λ x. text_eq x a) xs ≤ 1

-- A list without the elements of another.
abbrev pub stays : List Text → Text → Bool
stays removed c = not (any (λ r. text_eq c r) removed)

pub length-filter : {A : Type 0} (p : A → Bool) (xs : List A) → length (filter p xs) ≡ count p xs
unfolding count
length-filter p [] = refl
length-filter p (x ∷ xs) = elim (Bool-cases (p x)) [
  | inl t ↦ rw t (omega (arith, length-filter p xs))
  | inr t ↦ rw t (omega (arith, length-filter p xs))
]

pub count_pos :
    (cs : List Text) (a : Address)
    → is_cosignatory cs a ≡ true
    → 1 ≤ count (λ x. text_eq x a.plain) cs
unfolding is_cosignatory count
count_pos [] a h = ground arith
count_pos (c ∷ cs) a h = elim (Bool-cases (text_eq c a.plain)) [
  | inl t ↦ rw t (omega arith)
  | inr t ↦ rw t (omega (arith, count_pos cs a (rw t at h)))
]

pub count_zero :
    (cs : List Text) (a : Address)
    → is_cosignatory cs a ≡ false
    → count (λ x. text_eq x a.plain) cs ≡ 0
unfolding is_cosignatory count
count_zero [] a h = refl
count_zero (c ∷ cs) a h = elim (Bool-cases (text_eq c a.plain)) [
  | inl t ↦ ground (arith, rw t at h)
  | inr t ↦ rw t (omega (arith, count_zero cs a (rw t at h)))
]

-- The deletion of an element takes away those that equal it.
count-stays :
    (r : Text) (removed cs : List Text)
    → any (λ x. text_eq r x) removed ≡ false
    → count (stays removed) cs ≡ count (stays (r ∷ removed)) cs + count (λ x. text_eq x r) cs
unfolding count
count-stays r removed [] n = refl
count-stays r removed (c ∷ cs) n = elim (Bool-cases (text_eq c r)) [
  | inl t ↦ rw (text_eq-eq c r t, n, text_eq_refl r) (omega (arith, count-stays r removed cs n))
  | inr t ↦ rw t (omega (arith, count-stays r removed cs n))
]

count_all : (cs : List Text) → count (stays []) cs ≡ length cs
unfolding count
count_all [] = refl
count_all (c ∷ cs) = omega (arith, count_all cs)

absent :
    (r : Text) (removed : List Text)
    → count (λ x. text_eq x r) removed ≤ 0
    → any (λ x. text_eq r x) removed ≡ false
unfolding count
absent r [] h = refl
absent r (x ∷ removed) h = elim (Bool-cases (text_eq r x)) [
  | inl t ↦ ground (arith, rw (← text_eq-eq r x t, text_eq_refl r) at h)
  | inr t ↦ rw t (absent r removed (omega arith))
]

-- Accepted deletions of different cosignatories leave that many fewer.
pub count-remaining :
    (cs : List Text) (deletions : List Address)
    → IsDistinct cs
    → IsDistinct (plain_of deletions)
    → check_deletions cs deletions ≡ returned tt
    → count (stays (plain_of deletions)) cs + length deletions ≡ length cs
unfolding check_deletions plain_of count
count-remaining cs [] dc dd h = omega (arith, count_all cs)
count-remaining cs (a ∷ deletions) dc dd h = elim (Bool-cases (is_cosignatory cs a)) [
  | inl t ↦
      let only = rw (text_eq_refl a.plain) at (dd a.plain) in
      let gone = absent a.plain (plain_of deletions) (omega (arith, only)) in
      let rest = count-remaining cs deletions dc (λ x. omega (arith, dd x)) (rw t at h) in
      omega (
        arith,
        rest,
        count-stays a.plain (plain_of deletions) cs gone,
        count_pos cs a t,
        dc a.plain,
      )
  | inr t ↦ ground (arith, rw t at h)
]

-- An accepted addition is new.
pub count-new :
    (cs : List Text) (additions : List Address) (x : Text)
    → check_additions cs additions ≡ returned tt
    → (count (λ y. text_eq y x) (plain_of additions) ≡ 0) ⊎ (count (λ y. text_eq y x) cs ≡ 0)
unfolding check_additions plain_of count
count-new cs [] x h = inl refl
count-new cs (a ∷ additions) x h = elim (Bool-cases (is_cosignatory cs a)) [
  | inl t ↦ ground (arith, rw t at h)
  | inr t ↦ elim (Bool-cases (text_eq a.plain x)) [
    | inl e ↦ inr (rw (text_eq-eq a.plain x e) at (count_zero cs a t))
    | inr e ↦ elim (count-new cs additions x (rw t at h)) [
      | inl z ↦ inl (rw e (omega (arith, z)))
      | inr z ↦ inr z
    ]
  ]
]

pub count-filter : (p q : Text → Bool) (xs : List Text) → count p (filter q xs) ≤ count p xs
unfolding count
count-filter p q [] = omega arith
count-filter p q (x ∷ xs) = elim (Bool-cases (q x)) [
  | inl t ↦ rw t (omega (arith, count-filter p q xs))
  | inr t ↦ rw t (omega (arith, count-filter p q xs))
]

pub IsDistinct-cons :
    (x : Text) (xs : List Text)
    → count (λ y. text_eq y x) xs ≡ 0
    → IsDistinct xs
    → IsDistinct (x ∷ xs)
unfolding count
IsDistinct-cons x xs h d a = elim (Bool-cases (text_eq x a)) [
  | inl t ↦ rw t (omega (arith, rw (text_eq-eq x a t) at h))
  | inr t ↦ rw t (omega (arith, d a))
]

pub IsDistinct-nil : IsDistinct []
unfolding count
IsDistinct-nil a = omega arith
