-- ===== src/Verify.antt =====
-- src/service/VerifyService.ts: the report on whether the machine can run a network.
--
-- The commands of the machine and the functions of semver are parameters. A line of the report is its
-- header and its recommendation; its message is left out.
pub mod Ready
mod Examples
use symbol_bootstrap.Base.{
  ℕ, Bool, true, false, not, ◌&&◌, Option, none, some, List, [], ◌∷◌, ◌++◌, filter, find?, or_else,
  is_some, ◌==◌, if◌then◌else◌,
}
use symbol_bootstrap.Base.Text.{Text, text, text_eq, contains, is_empty}
use symbol_bootstrap.Base.Strings.{trim, split}
use symbol_bootstrap.Base.Result.{Result, returned, raised, error, ◌>>=◌}
use symbol_bootstrap.Account.{truthy}

pub record ReportLine : Type 0 where
  pub header : Text
  pub recommendation : Option Text

pub record ExpectedVersions : Type 0 where
  pub node : Text
  pub docker : Text
  pub docker_compose : Text

-- The output of a command, `semver.coerce` and `semver.lt` with the loose options, the version of
-- node.js, and the system.
pub record Machine : Type 0 where
  pub exec : Text → Result Text
  pub coerce : Text → Option Text
  pub lt : Text → Text → Bool
  pub node_version : Text
  pub is_root : Bool
  pub is_windows : Bool

pub record AppVersionParams : Type 0 where
  pub app_header : Text
  pub app_version : Option Text
  pub command : Option Text
  pub recommendation_url : Text
  pub expected_version : Text

pub data VerifyAction : Type 0 where
  app_version_action : AppVersionParams → VerifyAction
  docker_run_action sudo_run_action : VerifyAction

-- `replace(',', '')`: the first comma goes.
unfoldable pub without_comma : Text → Text
without_comma [] = []
without_comma (c ∷ s) = let rest = without_comma s in if c == b',' then s else c ∷ rest

-- `At least version … is required.` and `Check …`
abbrev pub prefix : AppVersionParams → Text
prefix params = text "At least version " ++ params.expected_version ++ text " is required."

abbrev suffix : AppVersionParams → Text
suffix params = text "Check " ++ params.recommendation_url

module _ (machine : Machine) where
  open machine use {exec, coerce, lt}

  -- The first word that is a version.
  unfoldable pub first_version : List Text → Option Text
  first_version [] = none
  first_version (word ∷ words) = elim (truthy (coerce (trim word))) [
    | some v ↦ some v
    | none ↦ first_version words
  ]

  abbrev trimmed : Option Text → Option Text
  trimmed none = none
  trimmed (some v) = some (trim v)

  -- `loadVersion`
  unfoldable pub load_version : Text → Option Text
  load_version output =
      let (word, words) = split b' ' (without_comma output) in
      trimmed (first_version (word ∷ words))

  -- The version that is given, or the one that the command prints.
  abbrev of_command : Option Text → Result (Option Text)
  of_command none = raised (error "Either version or command must be provided!")
  of_command (some command) = do output ← exec command; returned (load_version (trim output))

  unfoldable pub load_app_version : AppVersionParams → Result (Option Text)
  load_app_version params = elim (truthy params.app_version) [
    | some v ↦ returned (some v)
    | none ↦ of_command (truthy params.command)
  ]

  abbrev of_version : AppVersionParams → Option Text → Option Text
  of_version params none = some (prefix params ++ text " " ++ suffix params)
  of_version params (some v) =
      if lt v params.expected_version
      then some (
          prefix params
          ++ text " Currently installed version is "
          ++ v
          ++ text ". "
          ++ suffix params)
      else none

  -- The recommendation of `verifyInstalledApp`.
  unfoldable pub app_recommendation : AppVersionParams → Result (Option Text) → Option Text
  app_recommendation params (raised e) = some (prefix params ++ text " " ++ suffix params)
  app_recommendation params (returned version) = of_version params (truthy version)

  -- `DockerRunVerifyAction`
  abbrev please_check : Option Text
  please_check = some (
      text
        "Please check https://www.digitalocean.com/community/questions/how-to-fix-docker-got-permission-denied-while-trying-to-connect-to-the-docker-daemon-socket")

  unfoldable pub docker_recommendation : Result Text → Option Text
  docker_recommendation (raised e) = please_check
  docker_recommendation (returned output) =
      if contains (trim output) (text "Hello from Docker!") then none else please_check

  -- `verify`
  unfoldable pub verify : VerifyAction → ReportLine
  verify (app_version_action params) = record {
    header = params.app_header;
    recommendation = app_recommendation params (load_app_version params);
  }
  verify docker_run_action = record {
    header = text "Docker Run Test";
    recommendation = docker_recommendation (exec (text "docker run hello-world"));
  }
  verify sudo_run_action = record {
    header = text "Sudo User Test";
    recommendation =
        if machine.is_root
        then some (text "Either don't use sudo or create a non sudo user to run Bootstrap.")
        else none;
  }

  -- `shouldRun`
  unfoldable pub should_run : VerifyAction → List ReportLine → Bool
  should_run (app_version_action params) lines = true
  should_run docker_run_action lines = is_some (
      find?
        (λ l. text_eq l.header (text "Docker Version") && not (is_some (truthy l.recommendation)))
        lines)
  should_run sudo_run_action lines = not machine.is_windows

  -- The loop of `createReport`.
  unfoldable pub report_lines : List VerifyAction → List ReportLine → List ReportLine
  report_lines [] lines = lines
  report_lines (action ∷ actions) lines =
      report_lines actions (if should_run action lines then lines ++ verify action ∷ [] else lines)

  abbrev pub node_app : ExpectedVersions → AppVersionParams
  node_app expected = record {
    app_header = text "NodeVersion";
    app_version = some machine.node_version;
    command = none;
    recommendation_url = text "https://nodejs.org/en/download/package-manager/";
    expected_version = expected.node;
  }

  abbrev pub docker_app : ExpectedVersions → AppVersionParams
  docker_app expected = record {
    app_header = text "Docker Version";
    app_version = none;
    command = some (text "docker --version");
    recommendation_url = text "https://docs.docker.com/get-docker/";
    expected_version = expected.docker;
  }

  abbrev pub docker_compose_app : ExpectedVersions → AppVersionParams
  docker_compose_app expected = record {
    app_header = text "Docker Compose Version";
    app_version = none;
    command = some (text "docker-compose --version");
    recommendation_url = text "https://docs.docker.com/compose/install/";
    expected_version = expected.docker_compose;
  }

  -- `createReport`, of the actions of the constructor.
  unfoldable pub create_report : ExpectedVersions → List ReportLine
  create_report expected =
      report_lines
        (app_version_action (node_app expected)
          ∷ app_version_action (docker_app expected)
          ∷ app_version_action (docker_compose_app expected)
          ∷ docker_run_action
          ∷ sudo_run_action
          ∷ [])
        []

unfoldable pub validate_report : List ReportLine → Result (Unit {0})
validate_report lines = elim (filter (λ l. is_some (truthy l.recommendation)) lines) [
  | [] ↦ returned tt
  | ◌∷◌ l ls ↦ raised (error "There has been an error. Check the report.")
]
