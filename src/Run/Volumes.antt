-- ===== src/Run/Volumes.antt =====
-- docker-compose does not start before the folders of its volumes are there.
use symbol_bootstrap.Base.{
  ◌≡◌, refl, subst, sym, Bool, true, false, not, ◌&&◌, some, List, [], ◌∷◌, inl, inr, ◌⊎◌, All,
}
use mathlib.Core.List.{Memᴰ}
use symbol_bootstrap.Base.Text.{Text, text, starts_with}
use symbol_bootstrap.Base.Result.{Error, returned, raised, Result-cases}
use symbol_bootstrap.Action.{Action, Outcome, waiting, thrown, done, pure, lift, after, ◌>>=◌}
use symbol_bootstrap.Run.{
  Command, make_folder, allow_all, Commands, DockerComposeService, RunParams, Machine, issue,
  perform, each, only_if, volume_list, volume_path, prepare_volume, before_run, before_compose,
  pull_all, pull_image,
}

abbrev opens_to_all : Machine → Text → Bool
opens_to_all machine v = starts_with v (text "../databases") && machine.is_root

-- The volume's folder was there, or was made, and that of a database was opened to all by a user
-- that is root.
abbrev pub IsPrepared : RunParams → Machine → Text → Commands → Type 0
IsPrepared params machine v log =
    ((machine.folder_exists (volume_path params machine v) ≡ true)
      ⊎ Memᴰ (make_folder (volume_path params machine v)) log)
    × (((starts_with v (text "../databases") && machine.is_root) ≡ false)
        ⊎ Memᴰ (allow_all (volume_path params machine v)) log)

-- The commands so far are among those later.
abbrev Extends : Commands → Commands → Type 0
Extends s t = (c : Command) → Memᴰ c s → Memᴰ c t

-- Code that is done, and of whose commands each one succeeded, or that ends with the failure of the
-- last command.
data Ended (machine : Machine) {A : Type 0} (s : Commands) (P : A → Commands → Type 0)
    : Outcome Commands A → Type 0 where
  is_done : {a : A} {t : Commands} → Extends s t → P a t → Ended machine s P (done a t)
  has_failed :
      {e : Error} {c : Command} {t : Commands}
      → machine.outcome c ≡ raised e
      → Ended machine s P (thrown e (c ∷ t))

Extends-later : (s t u : Commands) → Extends s t → Extends t u → Extends s u
Extends-later s t u h k c m = k c (h c m)

module _ (machine : Machine) where
  Ended-map :
      {A : Type 0} (s : Commands) (P Q : A → Commands → Type 0) (o : Outcome Commands A)
      → ((a : A) (t : Commands) → Extends s t → P a t → Q a t)
      → Ended machine s P o
      → Ended machine s Q o
  Ended-map s P Q (done a t) f (is_done h p) = is_done h (f a t h p)
  Ended-map s P Q (thrown e (c ∷ t)) f (has_failed h) = has_failed h
  Ended-map s P Q (waiting t) f h = elim h [ ]
  Ended-map s P Q (thrown e []) f h = elim h [ ]

  Ended-from :
      {A : Type 0} (s t : Commands) (Q : A → Commands → Type 0) (o : Outcome Commands A)
      → Extends s t
      → Ended machine t Q o
      → Ended machine s Q o
  Ended-from s t Q (done a u) h (is_done k p) = is_done (Extends-later s t u h k) p
  Ended-from s t Q (thrown e (c ∷ u)) h (has_failed k) = has_failed k
  Ended-from s t Q (waiting u) h k = elim k [ ]
  Ended-from s t Q (thrown e []) h k = elim k [ ]

  Ended-after :
      {A B : Type 0} (s : Commands) (P : A → Commands → Type 0) (Q : B → Commands → Type 0)
      (o : Outcome Commands A) (f : A → Action Commands B)
      → Ended machine s P o
      → ((a : A) (t : Commands) → P a t → Ended machine t Q (f a t))
      → Ended machine s Q (after o f)
  Ended-after s P Q (done a t) f (is_done h p) k = Ended-from s t Q (f a t) h (k a t p)
  Ended-after s P Q (thrown e (c ∷ t)) f (has_failed h) k = has_failed h
  Ended-after s P Q (waiting t) f h k = elim h [ ]
  Ended-after s P Q (thrown e []) f h k = elim h [ ]

  Ended-bind :
      {A B : Type 0} (s : Commands) (P : A → Commands → Type 0) (Q : B → Commands → Type 0)
      (m : Action Commands A) (f : A → Action Commands B)
      → Ended machine s P (m s)
      → ((a : A) (t : Commands) → P a t → Ended machine t Q (f a t))
      → Ended machine s Q ((m >>= f) s)
  unfolding ◌>>=◌
  Ended-bind s P Q m f h k = Ended-after s P Q (m s) f h k

  perform-Ended :
      (c : Command) (s : Commands) → Ended machine s (λ _ t. Memᴰ c t) (perform machine c s)
  unfolding perform issue lift ◌>>=◌
  perform-Ended c s = elim (Result-cases (machine.outcome c)) [
    | inl (tt, e) ↦ rw e (is_done (λ d m. Memᴰ.tail m) (Memᴰ.head refl))
    | inr (x, e) ↦ rw e (has_failed e)
  ]

  issue-Ended : (c : Command) (s : Commands) → Ended machine s (λ _ t. Unit {0}) (issue c s)
  unfolding issue
  issue-Ended c s = is_done (λ d m. Memᴰ.tail m) tt

  only_if-Ended :
      (b : Bool) (m : Action Commands (Unit {0})) (P : Commands → Type 0) (s : Commands)
      → Ended machine s (λ _. P) (m s)
      → Ended machine s (λ _ t. (b ≡ false) ⊎ P t) (only_if b m s)
  unfolding pure
  only_if-Ended true m P s h = Ended-map s _ _ (m s) (λ _ t _ p. inr p) h
  only_if-Ended false m P s h = is_done (λ c m. m) (inl refl)

  each-Ended :
      {A : Type 0} (P : A → Commands → Type 0) (f : A → Action Commands (Unit {0})) (xs : List A)
      → ((x : A) (s t : Commands) → Extends s t → P x s → P x t)
      → ((x : A) (s : Commands) → Ended machine s (λ _. P x) (f x s))
      → (s : Commands) → Ended machine s (λ _ t. All (λ x. P x t) xs) (each f xs s)
  unfolding each pure
  each-Ended P f [] keeps h s = is_done (λ c m. m) tt
  each-Ended P f (x ∷ xs) keeps h s =
      Ended-bind s (λ _. P x) _ (f x) (λ _. each f xs) (h x s)
        (λ _ t p.
          Ended-map t (λ _ u. All (λ y. P y u) xs) (λ _ u. P x u × All (λ y. P y u) xs)
            (each f xs t) (λ _ u k all. (keeps x t u k p, all)) (each-Ended P f xs keeps h t))

  module _ (params : RunParams) where
    IsPrepared-Extends :
        (v : Text) (s t : Commands)
        → Extends s t
        → IsPrepared params machine v s
        → IsPrepared params machine v t
    IsPrepared-Extends v s t h (made, opened) = (
      elim made [ inl e ↦ inl e | inr m ↦ inr (h _ m) ],
      elim opened [ inl e ↦ inl e | inr m ↦ inr (h _ m) ],
    )

    prepare_volume-Ended :
        (v : Text) (s : Commands)
        → Ended machine s (λ _. IsPrepared params machine v) (prepare_volume params machine v s)
    unfolding prepare_volume
    prepare_volume-Ended v s =
        let path = volume_path params machine v in
        let make = perform machine (make_folder path) in
        let open_all = perform machine (allow_all path) in
        let missing = not (machine.folder_exists path) in
        let opens = starts_with v (text "../databases") && machine.is_root in
        Ended-bind s _ _ (only_if missing make) (λ _. only_if opens open_all)
          (only_if-Ended missing make _ s (perform-Ended (make_folder path) s))
          (λ _ t made.
            Ended-map t _ (λ _. IsPrepared params machine v) (only_if opens open_all t)
              (λ _ u k opened. (was_made v t u k made, opened))
              (only_if-Ended opens open_all _ t (perform-Ended (allow_all path) t)))
      where
        not_false : (b : Bool) → not b ≡ false → b ≡ true
        not_false true h = refl
        not_false false h = cc

        was_made :
            (w : Text) (t u : Commands)
            → Extends t u
            → ((not (machine.folder_exists (volume_path params machine w)) ≡ false)
                ⊎ Memᴰ (make_folder (volume_path params machine w)) t)
            → ((machine.folder_exists (volume_path params machine w) ≡ true)
                ⊎ Memᴰ (make_folder (volume_path params machine w)) u)
        was_made w t u k (inl e) = inl (not_false _ e)
        was_made w t u k (inr m) = inr (k _ m)

    before_run-Ended :
        (ignore_if_not_found : Bool) (services : List DockerComposeService) (s : Commands)
        → Ended machine s
            (λ found t.
              (found ≡ true) × All (λ v. IsPrepared params machine v t) (volume_list services))
            (before_compose params machine ignore_if_not_found (some (returned services)) s)
    unfolding pull_all pure lift ◌>>=◌
    before_run-Ended ignore_if_not_found services s =
        let pulls = not ignore_if_not_found && params.pull_images in
        let volumes = volume_list services in
        Ended-bind s (λ _ _. Unit {0}) _ (only_if pulls (pull_all params machine services)) _
          (Ended-map s _ _ _ (λ _ _ _ _. tt)
            (only_if-Ended pulls (pull_all params machine services) _ s (
              each-Ended (λ _ _. Unit {0}) _ _ (λ _ _ _ _ _. tt)
                (λ image t. issue-Ended (pull_image image) t) s)))
          (λ _ t _.
            Ended-bind t (λ _ u. All (λ v. IsPrepared params machine v u) volumes) _
              (each (prepare_volume params machine) volumes) (λ _. pure true)
              (each-Ended (IsPrepared params machine) _ volumes IsPrepared-Extends
                prepare_volume-Ended t)
              (λ _ u all. is_done (λ c m. m) (refl, all)))

    -- Whether `beforeRun` is done with all volumes, or has failed.
    abbrev pub PreparesOrFails : List DockerComposeService → Outcome Commands Bool → Type 0
    PreparesOrFails services o =
        ((t : Commands) × (o ≡ done true t)
          × All (λ v. IsPrepared params machine v t) (volume_list services))
        ⊎ ((e : Error) × (c : Command) × (t : Commands) × (o ≡ thrown e (c ∷ t))
            × (machine.outcome c ≡ raised e))

    Ended-PreparesOrFails :
        (services : List DockerComposeService) (s : Commands) (o : Outcome Commands Bool)
        → Ended machine s
            (λ found t.
              (found ≡ true) × All (λ v. IsPrepared params machine v t) (volume_list services))
            o
        → PreparesOrFails services o
    Ended-PreparesOrFails services s (done a t) (is_done h (found, all)) =
        inl (t, rw found refl, all)
    Ended-PreparesOrFails services s (thrown e (c ∷ t)) (has_failed h) = inr (e, c, t, refl, h)
    Ended-PreparesOrFails services s (waiting t) h = elim h [ ]
    Ended-PreparesOrFails services s (thrown e []) h = elim h [ ]

    -- Where docker-compose.yml is found and read, `beforeRun` does not wait. Either a command that it
    -- gave fails, and it throws that error; or it is done, and it has made the folder of every
    -- volume of every service, unless the folder was there, and has opened those of the databases to
    -- all, if the user is root.
    pub before_run-IsPrepared :
        (ignore_if_not_found : Bool) (services : List DockerComposeService) (s : Commands)
        → machine.compose_file ≡ some (returned services)
        → PreparesOrFails services (before_run params machine ignore_if_not_found s)
    unfolding before_run
    before_run-IsPrepared ignore_if_not_found services s found =
        subst
          (λ o. PreparesOrFails services (before_compose params machine ignore_if_not_found o s))
          (sym found)
          (Ended-PreparesOrFails services s _ (before_run-Ended ignore_if_not_found services s))
