-- ===== src/Migration/Steps.antt =====
-- What `migrate` does to the data and to its version.
use symbol_bootstrap.Base.{
  ℕ, zero, suc, ◌+◌, ◌-◌, ◌≤◌, ◌≡◌, refl, ap, ◌∙◌, Option, none, some, List, [], ◌∷◌, ◌++◌, length,
  drop, ltb, ◌==◌, ==_iff, ==_refl, arith, Bool-cases, inl, inr,
}
use symbol_bootstrap.Base.Result.{returned, ◌>>=◌, >>=-eq-returned, Result-cases}
use symbol_bootstrap.Migration.{
  Versioned, Migration, known_version, apply_migrations, stamp, migrate_from, migrate,
}

-- What is assumed of the field: it holds what was written, and writing what it holds changes
-- nothing, nor does a write that is followed by another.
pub record VersionedLaws {A : Type 0} (v : Versioned A) : Type 0 where
  pub version-set_version : (n : ℕ) (a : A) → v.version (v.set_version n a) ≡ some n
  pub set_version_same : (n : ℕ) (a : A) → v.version a ≡ some n → v.set_version n a ≡ a
  pub set_version_twice :
      (n m : ℕ) (a : A) → v.set_version n (v.set_version m a) ≡ v.set_version n a

module _ {A : Type 0} (v : Versioned A) (laws : VersionedLaws v) where
  stamp-version : (n : ℕ) (o : Option A) (r : A) → stamp v n o ≡ returned r → v.version r ≡ some n
  stamp-version n none r h = cc
  stamp-version n (some a) r h =
      let same : v.set_version n a ≡ r = ground arith in rw (← same) (laws.version-set_version n a)

  migrate_from-version :
      (ms : List (Migration A)) (k : ℕ) (a r : A)
      → v.version a ≡ some k
      → migrate_from v ms k a ≡ returned r
      → v.version r ≡ some (length ms + 1)
  unfolding migrate_from
  migrate_from-version ms k a r e h = elim (Bool-cases (k == length ms + 1)) [
    | inl t ↦
        let same : a ≡ r = ground (arith, rw t at h) in
        rw (← same) (e ∙ ap some ((==_iff k (length ms + 1)).0 t))
    | inr f ↦ elim (Bool-cases (ltb (length ms + 1) k)) [
      | inl t ↦ cc (rw t at (rw f at h))
      | inr g ↦
          let (o, _, s) =
            >>=-eq-returned (apply_migrations v (drop (k - 1) ms) (some a))
              (stamp v (length ms + 1)) (rw g at (rw f at h)) in
          stamp-version (length ms + 1) o r s
    ]
  ]

  migrate-version :
      (ms : List (Migration A)) (a r : A)
      → migrate v ms (some a) ≡ returned (some r)
      → v.version r ≡ some (length ms + 1)
  unfolding migrate
  migrate-version ms a r h =
      let k = known_version (v.version a) in
      let (b, e, s) =
        >>=-eq-returned (migrate_from v ms k (v.set_version k a)) (λ b. returned (some b)) h in
      let same : b ≡ r = ground (arith, s) in
      rw (← same) (migrate_from-version ms k (v.set_version k a) b (laws.version-set_version k a) e)

  pub known_version-suc : (n : ℕ) → known_version (some (n + 1)) ≡ n + 1
  known_version-suc n = ground arith

  -- Data whose version is known is migrated from it.
  pub migrate-known :
      (ms : List (Migration A)) (n : ℕ) (a : A)
      → v.version a ≡ some (n + 1)
      → migrate v ms (some a) ≡ (migrate_from v ms (n + 1) a >>= λ b. returned (some b))
  unfolding migrate
  migrate-known ms n a e =
      rw e (rw (known_version-suc n) (rw (laws.set_version_same (n + 1) a e) refl))

  pub migrate_from-current :
      (ms : List (Migration A)) (a : A) → migrate_from v ms (length ms + 1) a ≡ returned a
  unfolding migrate_from
  migrate_from-current ms a = rw (==_refl (length ms + 1)) refl

  -- Data that has been migrated has the current version, which is one more than the number of
  -- migrations, and migrating it again changes nothing. This is where the version is a field that
  -- holds what was written and that does not change when the same is written again.
  pub migrate_twice :
      (ms : List (Migration A)) (a r : A)
      → migrate v ms (some a) ≡ returned (some r)
      → (v.version r ≡ some (length ms + 1)) × (migrate v ms (some r) ≡ returned (some r))
  migrate_twice ms a r h =
      let e = migrate-version ms a r h in
      (e, rw (migrate-known ms (length ms) r e) (rw (migrate_from-current ms r) refl))

pub apply_migrations-append :
    {A : Type 0} (v : Versioned A) (ms ns : List (Migration A)) (o : Option A)
    → apply_migrations v (ms ++ ns) o ≡ (apply_migrations v ms o >>= λ p. apply_migrations v ns p)
unfolding apply_migrations
apply_migrations-append v [] ns o = refl
apply_migrations-append v (m ∷ ms) ns none = apply_migrations-append v ms ns none
apply_migrations-append v (m ∷ ms) ns (some a) = elim (Result-cases (m a)) [
  | inl (o, e) ↦ rw e (apply_migrations-append v ms ns o)
  | inr (x, e) ↦ rw e refl
]

pub apply_migrations-none :
    {A : Type 0} (v : Versioned A) (ms : List (Migration A))
    → apply_migrations v ms none ≡ returned none
unfolding apply_migrations
apply_migrations-none v [] = refl
apply_migrations-none v (m ∷ ms) = apply_migrations-none v ms

pub drop_within :
    {A : Type 0} (n : ℕ) (xs ys : List A) → n ≤ length xs → drop n (xs ++ ys) ≡ drop n xs ++ ys
drop_within zero xs ys h = refl
drop_within (suc n) [] ys h = absurd (omega (arith, h))
drop_within (suc n) (x ∷ xs) ys h = drop_within n xs ys (omega (arith, h))
