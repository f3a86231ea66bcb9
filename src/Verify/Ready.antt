-- ===== src/Verify/Ready.antt =====
-- Which machines pass the report.
use symbol_bootstrap.Base.{
  ◌≡◌, ◌↔◌, ◌⊎◌, refl, ap, sym, ◌∙◌, true, false, not, Option, none, some, List, [], ◌∷◌, is_some,
  All, arith, Bool-cases, Option-cases, subst, inl, inr, if◌then◌else◌,
}
use symbol_bootstrap.Base.Text.{Text, text, text_eq, contains, is_empty}
use symbol_bootstrap.Base.Strings.{trim}
use symbol_bootstrap.Base.Result.{returned, Result-cases}
use symbol_bootstrap.Account.{truthy}
use symbol_bootstrap.Verify.{
  ReportLine, ExpectedVersions, Machine, AppVersionParams, app_version_action, docker_run_action,
  sudo_run_action, app_recommendation, docker_recommendation, load_app_version, load_version,
  first_version, verify, should_run, report_lines, node_app, docker_app, docker_compose_app,
  create_report, validate_report,
}

-- The line recommends nothing.
abbrev IsFine : ReportLine → Type 0
IsFine l = is_some (truthy l.recommendation) ≡ false

validate_report-All :
    (lines : List ReportLine) → validate_report lines ≡ returned tt → All IsFine lines
unfolding validate_report
validate_report-All [] h = tt
validate_report-All (l ∷ lines) h = elim (Bool-cases (is_some (truthy l.recommendation))) [
  | inl t ↦ ground (arith, rw (validate_report, t) at h)
  | inr t ↦ (t, validate_report-All lines (rw (validate_report, t) at h))
]

All-validate_report :
    (lines : List ReportLine) → All IsFine lines → validate_report lines ≡ returned tt
unfolding validate_report
All-validate_report [] h = refl
All-validate_report (l ∷ lines) (f, h) = rw (validate_report, f) (All-validate_report lines h)

truthy-some : (o : Option Text) (v : Text) → truthy o ≡ some v → (o ≡ some v) × (is_empty v ≡ false)
truthy-some none v h = cc
truthy-some (some []) v h = cc
truthy-some (some (c ∷ t)) v h = (h, rw (← some_value (c ∷ t) v h) refl)
  where
    some_value : (a b : Text) → some a ≡ some b → a ≡ b
    some_value a b e = cc

module _ (machine : Machine) where
  -- The version is found, and is not less than the expected one.
  abbrev pub IsInstalled : AppVersionParams → Type 0
  IsInstalled params =
      (v : Text) × (load_app_version machine params ≡ returned (some v))
      × (is_empty v ≡ false)
      × (machine.lt v params.expected_version ≡ false)

  abbrev pub CanRunDocker : Type 0
  CanRunDocker =
      (output : Text) × (machine.exec (text "docker run hello-world") ≡ returned output)
      × (contains (trim output) (text "Hello from Docker!") ≡ true)

  abbrev pub IsReady : ExpectedVersions → Type 0
  IsReady expected =
      IsInstalled (node_app machine expected)
      × IsInstalled (docker_app machine expected)
      × IsInstalled (docker_compose_app machine expected)
      × CanRunDocker
      × ((machine.is_windows ≡ true) ⊎ (machine.is_root ≡ false))

  app-IsInstalled :
      (params : AppVersionParams)
      → IsFine (verify machine (app_version_action params))
      → IsInstalled params
  unfolding verify app_recommendation
  app-IsInstalled params h = elim (Result-cases (load_app_version machine params)) [
    | inl (o, e) ↦ elim (Option-cases (truthy o)) [
      | inl n ↦ ground (arith, rw (e, n) at h)
      | inr (v, f) ↦
          let (same, full) = truthy-some o v f in
          elim (Bool-cases (machine.lt v params.expected_version)) [
            | inl old ↦ ground (arith, rw (e, f, old) at h)
            | inr new ↦ (v, e ∙ ap returned same, full, new)
          ]
    ]
    | inr (r, e) ↦ ground (arith, rw e at h)
  ]

  app-IsFine :
      (params : AppVersionParams)
      → IsInstalled params
      → IsFine (verify machine (app_version_action params))
  unfolding verify app_recommendation
  app-IsFine params (v, loaded, full, new) = rw loaded (rw (full, new) refl)

  docker-CanRunDocker : IsFine (verify machine docker_run_action) → CanRunDocker
  unfolding verify docker_recommendation
  docker-CanRunDocker h = elim (Result-cases (machine.exec (text "docker run hello-world"))) [
    | inl (output, e) ↦ elim (Bool-cases (contains (trim output) (text "Hello from Docker!"))) [
      | inl said ↦ (output, e, said)
      | inr unsaid ↦ ground (arith, rw (e, unsaid) at h)
    ]
    | inr (r, e) ↦ ground (arith, rw e at h)
  ]

  docker-IsFine : CanRunDocker → IsFine (verify machine docker_run_action)
  unfolding verify docker_recommendation
  docker-IsFine (output, ran, said) = rw (ran, said) refl

  -- The lines where docker has its version, and so it is run.
  abbrev full_report : ExpectedVersions → List ReportLine
  full_report expected =
      verify machine (app_version_action (node_app machine expected))
      ∷ verify machine (app_version_action (docker_app machine expected))
      ∷ verify machine (app_version_action (docker_compose_app machine expected))
      ∷ verify machine docker_run_action
      ∷ (if not machine.is_windows then verify machine sudo_run_action ∷ [] else [])

  create_report-full :
      (expected : ExpectedVersions)
      → IsFine (verify machine (app_version_action (docker_app machine expected)))
      → create_report machine expected ≡ full_report expected
  unfolding create_report report_lines should_run verify text_eq
  create_report-full expected h =
      rw h (elim (Bool-cases machine.is_windows) [ inl w ↦ rw w refl | inr w ↦ rw w refl ])

  create_report-docker :
      (expected : ExpectedVersions)
      → All IsFine (create_report machine expected)
      → IsFine (verify machine (app_version_action (docker_app machine expected)))
  unfolding create_report report_lines should_run verify text_eq load_app_version load_version
      first_version app_recommendation
  create_report-docker expected h =
      let docker =
        app_recommendation machine (docker_app machine expected)
          (load_app_version machine (docker_app machine expected)) in
      elim (Bool-cases (is_some (truthy docker))) [
        | inl t ↦ elim (Bool-cases machine.is_windows) [
          | inl w ↦ (rw (t, w) at h).1.0
          | inr w ↦ (rw (t, w) at h).1.0
        ]
        | inr t ↦ t
      ]

  sudo-IsFine :
      All IsFine (if not machine.is_windows then verify machine sudo_run_action ∷ [] else [])
      ↔ ((machine.is_windows ≡ true) ⊎ (machine.is_root ≡ false))
  unfolding verify
  sudo-IsFine = elim (Bool-cases machine.is_windows) [
    | inl w ↦ (λ h. inl w, λ s. rw w tt)
    | inr w ↦ elim (Bool-cases machine.is_root) [
      | inl r ↦ (λ h. ground (arith, rw (w, r) at h), λ s. ground (arith, w, r))
      | inr r ↦ (λ h. inr r, λ s. rw (w, r) (refl, tt))
    ]
  ]

  -- The report of a machine is validated if and only if node.js, docker and docker-compose are found in
  -- the expected versions, docker runs and greets, and the user is not root, unless the system is
  -- Windows.
  pub create_report-IsReady :
      (expected : ExpectedVersions)
      → (validate_report (create_report machine expected) ≡ returned tt) ↔ IsReady expected
  create_report-IsReady expected = (
    λ h.
        let lines = validate_report-All (create_report machine expected) h in
        let docker = create_report-docker expected lines in
        let (node, (_, (compose, (ran, sudo)))) =
          subst (All IsFine) (create_report-full expected docker) lines in
        (
          app-IsInstalled (node_app machine expected) node,
          app-IsInstalled (docker_app machine expected) docker,
          app-IsInstalled (docker_compose_app machine expected) compose,
          docker-CanRunDocker ran,
          sudo-IsFine.0 sudo,
        ),
    λ (node, docker, compose, ran, sudo).
        let fine = app-IsFine (docker_app machine expected) docker in
        All-validate_report (create_report machine expected) (
          subst (All IsFine) (sym (create_report-full expected fine)) (
            app-IsFine (node_app machine expected) node,
            (
              fine,
              (
                app-IsFine (docker_compose_app machine expected) compose,
                (docker-IsFine ran, sudo-IsFine.1 sudo),
              ),
            ),
          )),
  )
