-- ===== src/Multisig/Accepted.antt =====
-- The multisig account that an accepted modification makes.
use symbol_bootstrap.Base.{
  ℕ, ◌+◌, ◌≡◌, ◌≢◌, ◌⊎◌, suc, refl, ap, false, ◌==◌, Option, List, [], ◌∷◌, ◌++◌, length,
  length-append, filter, arith, Bool-cases, inl, inr,
}
use symbol_bootstrap.Base.Counting.{count, count-append}
use symbol_bootstrap.Base.Int.{ℤ, pos, ◌+ℤ◌, sub_ℕ, ◌<ℤ◌, is_zero}
use symbol_bootstrap.Base.Text.{Text, text_eq}
use symbol_bootstrap.Base.Result.{returned, >>-eq-returned}
use symbol_bootstrap.Announce.{MultisigAccountInfo}
use symbol_bootstrap.Multisig.{
  Address, check_additions, check_deletions, check_numbers, validate_params, cosignatories_of,
  new_min_approval, new_min_removal, new_cosignatory_number,
}
use symbol_bootstrap.Multisig.Lists.{
  plain_of, IsDistinct, stays, length-filter, count-remaining, count-new, count-filter,
}

-- The cosignatories of the modified account.
abbrev pub modified : List Text → List Address → List Address → List Text
modified cosignatories additions deletions =
    filter (stays (plain_of deletions)) cosignatories ++ plain_of additions

length-plain_of : (addresses : List Address) → length (plain_of addresses) ≡ length addresses
unfolding plain_of
length-plain_of [] = refl
length-plain_of (a ∷ addresses) = ap suc (length-plain_of addresses)

number_of_modified : (a d c : ℕ) → pos (c + d) +ℤ sub_ℕ a d ≡ pos (c + a)
unfolding ◌+ℤ◌
number_of_modified a d c = ground arith

-- `newCosignatoryNumber` is the number of the cosignatories of the modified account.
length-modified :
    (current : Option MultisigAccountInfo) (additions deletions : List Address)
    → IsDistinct (cosignatories_of current)
    → IsDistinct (plain_of deletions)
    → check_deletions (cosignatories_of current) deletions ≡ returned tt
    → new_cosignatory_number current additions deletions
      ≡ pos (length (modified (cosignatories_of current) additions deletions))
length-modified current additions deletions dc dd h =
    let cs = cosignatories_of current in
    rw
      (
        length-append (filter (stays (plain_of deletions)) cs) (plain_of additions),
        length-filter (stays (plain_of deletions)) cs,
        length-plain_of additions,
        ← count-remaining cs deletions dc dd h,
      )
      (number_of_modified (length additions) (length deletions)
        (count (stays (plain_of deletions)) cs))

not_zero : (a : ℤ) → is_zero a ≡ false → a ≢ pos 0
not_zero a h e = ground (arith, rw e at h)

-- What the checks on the numbers accept, for `n` cosignatories.
abbrev pub IsFor : ℤ → ℤ → ℕ → Type 0
IsFor approval removal n =
    (¬ (pos n <ℤ approval))
    × (¬ (pos n <ℤ removal))
    × ((n ≡ 0) ⊎ ((approval ≢ pos 0) × (removal ≢ pos 0)))

check_numbers-IsFor :
    (approval removal : ℤ) (n : ℕ)
    → check_numbers (pos n) approval removal ≡ returned tt
    → IsFor approval removal n
unfolding check_numbers
check_numbers-IsFor approval removal n h = (
  λ l. ground arith,
  λ l. ground arith,
  elim (Bool-cases (n == 0)) [
    | inl t ↦ inl (ground arith)
    | inr t ↦ inr (not_zero approval (ground arith), not_zero removal (ground arith))
  ],
)

IsDistinct-modified :
    (cs : List Text) (additions deletions : List Address)
    → IsDistinct cs
    → IsDistinct (plain_of additions)
    → check_additions cs additions ≡ returned tt
    → IsDistinct (modified cs additions deletions)
IsDistinct-modified cs additions deletions dc da h x =
    let kept = filter (stays (plain_of deletions)) cs in
    rw (count-append (λ y. text_eq y x) kept (plain_of additions))
      (elim (count-new cs additions x h) [
        | inl z ↦
            omega (arith, z, dc x, count-filter (λ y. text_eq y x) (stays (plain_of deletions)) cs)
        | inr z ↦
            omega (arith, z, da x, count-filter (λ y. text_eq y x) (stays (plain_of deletions)) cs)
      ])

-- What `validateParams` accepts, for a list of cosignatories, of additions and of deletions in none of
-- which an address is twice, is right for the modified account: its cosignatories are all
-- different, and there are as many of them as the new minimal approval and as the new minimal removal
-- want, neither of which is 0 while there are cosignatories.
pub validate_params-modified :
    (current : Option MultisigAccountInfo) (additions deletions : List Address)
    (removal_delta approval_delta : ℤ)
    → IsDistinct (cosignatories_of current)
    → IsDistinct (plain_of additions)
    → IsDistinct (plain_of deletions)
    → validate_params additions deletions removal_delta approval_delta current ≡ returned tt
    → IsDistinct (modified (cosignatories_of current) additions deletions)
      × IsFor
          (new_min_approval current approval_delta)
          (new_min_removal current removal_delta)
          (length (modified (cosignatories_of current) additions deletions))
unfolding validate_params
validate_params-modified current additions deletions removal_delta approval_delta dc da dd h =
    let (news, then_deletions) = >>-eq-returned (check_additions _ _) _ h in
    let (olds, then_numbers) = >>-eq-returned (check_deletions _ _) _ then_deletions in
    let number = length-modified current additions deletions dc dd olds in
    (
      IsDistinct-modified (cosignatories_of current) additions deletions dc da news,
      check_numbers-IsFor _ _ _ (rw number at then_numbers),
    )
