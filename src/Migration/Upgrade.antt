-- ===== src/Migration/Upgrade.antt =====
-- An upgrade in two steps, the first by an older program that has fewer migrations.
use symbol_bootstrap.Base.{
  ℕ, ◌+◌, ◌-◌, ◌≤◌, ◌<◌, ◌≡◌, refl, ap, sym, ◌∙◌, false, Option, none, some, List, [], ◌∷◌, ◌++◌,
  length, length-append, append-nil, drop, drop-append, ◌==◌, ==_iff, le→ltb_false, arith, All,
  Bool-cases, inl, inr,
}
use symbol_bootstrap.Base.Result.{Result, returned, raised, ◌>>=◌, Result-cases}
use symbol_bootstrap.Migration.{
  Versioned, Migration, known_version, apply_migrations, stamp, migrate_from, migrate,
}
use symbol_bootstrap.Migration.Steps.{
  VersionedLaws, apply_migrations-append, apply_migrations-none, drop_within, migrate-known,
  migrate_from-current,
}
use symbol_bootstrap.Migration.Unversioned.{
  IgnoresVersion, stamp-unversioned, apply_migrations-unversioned,
}

lt→==_false : (a b : ℕ) → a < b → (a == b) ≡ false
lt→==_false a b h = ground arith

==_false→lt : (a b : ℕ) → a ≤ b → (a == b) ≡ false → a < b
==_false→lt a b h e = ground arith

known_version-pos : (o : Option ℕ) → 0 < known_version o
known_version-pos o = ground arith

module _ {A : Type 0} (v : Versioned A) (laws : VersionedLaws v) (ms : List (Migration A)) where
  -- Below the current version the migrations from that version on are applied.
  migrate_from-old :
      (k : ℕ) (a : A)
      → k < length ms + 1
      → migrate_from v ms k a
        ≡ (apply_migrations v (drop (k - 1) ms) (some a) >>= stamp v (length ms + 1))
  unfolding migrate_from
  migrate_from-old k a h =
      rw (lt→==_false k (length ms + 1) h)
        (rw (le→ltb_false (length ms + 1) k (omega (arith, h))) refl)

module _ {A : Type 0} (v : Versioned A) (laws : VersionedLaws v) (ms : List (Migration A)) where
  migrate_from-next :
      (ns : List (Migration A)) (b : A)
      → All (IgnoresVersion v) ns
      → migrate_from v (ms ++ ns) (length ms + 1) (v.set_version (length ms + 1) b)
        ≡ (apply_migrations v ns (some b) >>= stamp v (length (ms ++ ns) + 1))
  unfolding apply_migrations
  migrate_from-next [] b _ =
      rw (append-nil ms) (migrate_from-current v laws ms (v.set_version (length ms + 1) b))
  migrate_from-next (n ∷ ns) b h =
      let first : length ms + 1 - 1 ≡ length ms = omega arith in
      rw
        (migrate_from-old v laws (ms ++ n ∷ ns) (length ms + 1) (v.set_version (length ms + 1) b)
          (omega (arith, length-append ms (n ∷ ns))))
        (rw first (
          rw (drop-append ms (n ∷ ns)) (
            stamp-unversioned v laws (length (ms ++ n ∷ ns) + 1) _ _ (
              apply_migrations-unversioned v laws (n ∷ ns) (some (v.set_version (length ms + 1) b))
                (some b) h
                (ap (λ d. returned (some d)) (laws.set_version_twice 0 (length ms + 1) b))))))

  -- What the first step leaves goes through the second.
  migrate-stamped :
      (ns : List (Migration A)) (o : Option A)
      → All (IgnoresVersion v) ns
      → (stamp v (length ms + 1) o >>= λ b. migrate v (ms ++ ns) (some b))
        ≡ (apply_migrations v ns o >>= stamp v (length (ms ++ ns) + 1) >>= λ b. returned (some b))
  migrate-stamped ns none h = rw (apply_migrations-none v ns) refl
  migrate-stamped ns (some b) h =
      rw
        (migrate-known v laws (ms ++ ns) (length ms) (v.set_version (length ms + 1) b)
          (laws.version-set_version (length ms + 1) b))
        (rw (migrate_from-next ns b h) refl)

  -- The known version is that of the last migration.
  migrate_from-upgraded :
      (ns : List (Migration A)) (k : ℕ) (a : A)
      → All (IgnoresVersion v) ns
      → k < length ms + 1
      → 0 < k
      → (migrate_from v (ms ++ ns) k a >>= λ b. returned (some b))
        ≡ (migrate_from v ms k a >>= λ b. migrate v (ms ++ ns) (some b))
  migrate_from-upgraded ns k a h late positive = rw (migrate_from-old v laws ms k a late) (
      rw (migrate_from-old v laws (ms ++ ns) k a (omega (arith, late, length-append ms ns))) (
        rw (drop_within (k - 1) ms ns (omega (arith, late))) (
          rw (apply_migrations-append v (drop (k - 1) ms) ns (some a))
            (elim (Result-cases (apply_migrations v (drop (k - 1) ms) (some a))) [
              | inl (o, e) ↦ rw e (sym (migrate-stamped ns o h))
              | inr (x, e) ↦ rw e refl
            ]))))

  -- The known version is the one that the first step leaves.
  migrate_from-same :
      (ns : List (Migration A)) (k : ℕ) (a : A)
      → v.version a ≡ some k
      → k ≡ length ms + 1
      → (migrate_from v (ms ++ ns) k a >>= λ b. returned (some b))
        ≡ (migrate_from v ms k a >>= λ b. migrate v (ms ++ ns) (some b))
  migrate_from-same ns k a e same = rw same (
      rw (migrate_from-current v laws ms a)
        (sym (migrate-known v laws (ms ++ ns) (length ms) a (e ∙ ap some same))))

  present-then :
      (m : Result A) (f : Option A → Result (Option A))
      → (m >>= (λ b. returned (some b)) >>= f) ≡ (m >>= λ b. f (some b))
  present-then (returned b) f = refl
  present-then (raised e) f = refl

  -- An upgrade may be made in two steps: migrating data with the first migrations, and the result
  -- with all of them, gives what migrating it at once with all of them gives, exceptions included.
  -- This is for data that is not newer than the first migrations, and later migrations whose results
  -- depend on the version of their data at most in their own version.
  pub migrate-append :
      (ns : List (Migration A)) (a : A)
      → All (IgnoresVersion v) ns
      → known_version (v.version a) ≤ length ms + 1
      → migrate v (ms ++ ns) (some a) ≡ (migrate v ms (some a) >>= migrate v (ms ++ ns))
  unfolding migrate
  migrate-append ns a h old =
      let k = known_version (v.version a) in
      let b = v.set_version k a in
      rw (present-then (migrate_from v ms k b) (migrate v (ms ++ ns)))
        (elim (Bool-cases (k == length ms + 1)) [
          | inl e ↦
              migrate_from-same ns k b (laws.version-set_version k a)
                ((==_iff k (length ms + 1)).0 e)
          | inr e ↦
              migrate_from-upgraded ns k b h (==_false→lt k (length ms + 1) old e)
                (known_version-pos (v.version a))
        ])
