-- ===== src/Migration/Unversioned.antt =====
-- Migrations that do not read the version.
use symbol_bootstrap.Base.{ℕ, ◌≡◌, refl, ap, sym, ◌∙◌, Option, none, some, List, [], ◌∷◌, All}
use symbol_bootstrap.Base.Result.{Result, returned, raised, ◌>>=◌}
use symbol_bootstrap.Migration.{Versioned, Migration, apply_migrations, stamp}
use symbol_bootstrap.Migration.Steps.{VersionedLaws}

module _ {A : Type 0} (v : Versioned A) where
  -- A result but for its version.
  abbrev pub unversioned : Result (Option A) → Result (Option A)
  unversioned (raised e) = raised e
  unversioned (returned none) = returned none
  unversioned (returned (some a)) = returned (some (v.set_version 0 a))

  -- The result depends on the version of the data at most in its own version.
  abbrev pub IgnoresVersion : Migration A → Type 0
  IgnoresVersion m = (n : ℕ) (a : A) → unversioned (m (v.set_version n a)) ≡ unversioned (m a)

  module _ (laws : VersionedLaws v) where
    stamp-same :
        (c : ℕ) (a b : A)
        → v.set_version 0 a ≡ v.set_version 0 b
        → v.set_version c a ≡ v.set_version c b
    stamp-same c a b h =
        sym (laws.set_version_twice c 0 a) ∙ ap (v.set_version c) h ∙ laws.set_version_twice c 0 b

    pub stamp-unversioned :
        (c : ℕ) (x y : Result (Option A))
        → unversioned x ≡ unversioned y
        → (x >>= stamp v c) ≡ (y >>= stamp v c)
    stamp-unversioned c (raised e) (raised f) h = cc
    stamp-unversioned c (returned none) (returned none) h = refl
    stamp-unversioned c (returned (some a)) (returned (some b)) h =
        let same : v.set_version 0 a ≡ v.set_version 0 b = cc in ap returned (stamp-same c a b same)
    stamp-unversioned c (raised e) (returned none) h = cc
    stamp-unversioned c (raised e) (returned (some b)) h = cc
    stamp-unversioned c (returned none) (raised f) h = cc
    stamp-unversioned c (returned none) (returned (some b)) h = cc
    stamp-unversioned c (returned (some a)) (raised f) h = cc
    stamp-unversioned c (returned (some a)) (returned none) h = cc

    bind-unversioned :
        (f : Option A → Result (Option A)) (x y : Result (Option A))
        → ((o p : Option A)
            → unversioned (returned o) ≡ unversioned (returned p)
            → unversioned (f o) ≡ unversioned (f p))
        → unversioned x ≡ unversioned y
        → unversioned (x >>= f) ≡ unversioned (y >>= f)
    bind-unversioned f (returned o) (returned p) k h = k o p h
    bind-unversioned f (raised e) (raised d) k h = cc
    bind-unversioned f (raised e) (returned none) k h = cc
    bind-unversioned f (raised e) (returned (some b)) k h = cc
    bind-unversioned f (returned none) (raised d) k h = cc
    bind-unversioned f (returned (some a)) (raised d) k h = cc

    pub apply_migrations-unversioned :
        (ns : List (Migration A)) (o p : Option A)
        → All IgnoresVersion ns
        → unversioned (returned o) ≡ unversioned (returned p)
        → unversioned (apply_migrations v ns o) ≡ unversioned (apply_migrations v ns p)
    unfolding apply_migrations
    apply_migrations-unversioned [] o p _ h = h
    apply_migrations-unversioned (n ∷ ns) none none (_, hs) h =
        apply_migrations-unversioned ns none none hs h
    apply_migrations-unversioned (n ∷ ns) (some a) (some b) (ignores, hs) h =
        let same : v.set_version 0 a ≡ v.set_version 0 b = cc in
        bind-unversioned (apply_migrations v ns) (n a) (n b)
          (λ o p k. apply_migrations-unversioned ns o p hs k)
          (sym (ignores 0 a) ∙ ap (λ d. unversioned (n d)) same ∙ ignores 0 b)
    apply_migrations-unversioned (n ∷ ns) none (some b) (_, hs) h = cc
    apply_migrations-unversioned (n ∷ ns) (some a) none (_, hs) h = cc
