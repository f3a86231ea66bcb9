-- ===== src/Verify/Examples.antt =====
-- A machine with docker, on which nobody is root.
use symbol_bootstrap.Base.{◌≡◌, ◌↔◌, refl, Bool, true, false, none, some, if◌then◌else◌}
use symbol_bootstrap.Base.Text.{Text, text, text_eq, contains, starts_with}
use symbol_bootstrap.Base.Strings.{split, trim_start, trim_end, is_space}
use symbol_bootstrap.Base.Result.{Result, returned, raised, error}
use symbol_bootstrap.Verify.{
  ExpectedVersions, Machine, app_recommendation, docker_recommendation, load_app_version,
  load_version, first_version, without_comma, verify, should_run, report_lines, create_report,
  validate_report,
}
use symbol_bootstrap.Verify.Ready.{IsReady, create_report-IsReady}

abbrev output_of : Text → Result Text
output_of command =
    if text_eq command (text "docker run hello-world")
    then returned (text "Hello from Docker!\n")
    else returned (text "version 20.1, build 7")

-- Only one word is a version, and it is a new one.
abbrev machine : Bool → Machine
machine is_root = record {
  exec = output_of;
  coerce = λ word. if text_eq word (text "20.1") then some word else none;
  lt = λ v expected. false;
  node_version = text "16.0.0";
  is_root = is_root;
  is_windows = false;
}

abbrev expected : ExpectedVersions
expected = record { node = text "12.0.0"; docker = text "18.3.0"; docker_compose = text "1.25.0" }

passes : validate_report (create_report (machine false) expected) ≡ returned tt
unfolding validate_report create_report report_lines should_run verify app_recommendation
    docker_recommendation load_app_version load_version first_version without_comma split trim_start
    trim_end is_space text_eq contains starts_with
passes = refl

root_fails :
    validate_report (create_report (machine true) expected)
    ≡ raised (error "There has been an error. Check the report.")
unfolding validate_report create_report report_lines should_run verify app_recommendation
    docker_recommendation load_app_version load_version first_version without_comma split trim_start
    trim_end is_space text_eq contains starts_with
root_fails = refl

create_report-IsReady_example :
    (validate_report (create_report (machine false) expected) ≡ returned tt)
    ↔ IsReady (machine false) expected
create_report-IsReady_example = create_report-IsReady (machine false) expected
