-- ===== src/Poll/Examples.antt =====
-- A check that succeeds at the third attempt.
use symbol_bootstrap.Base.{
  ◌≡◌, refl, Bool, true, false, none, some, List, [], ◌∷◌, replicate, arith,
}
use symbol_bootstrap.Poll.{Attempt, poll}
use symbol_bootstrap.Poll.Ends.{IsDecided, poll-ends}

abbrev attempt : Bool → Attempt
attempt b = record { result = b; stop_process = false; start_time = 999; end_time = 0 }

abbrev attempts : List Attempt
attempts = attempt false ∷ attempt false ∷ attempt true ∷ attempt true ∷ []

third : poll 10000 30000 attempts ≡ some true
unfolding poll
third = refl

too_late : poll 10000 18000 attempts ≡ some false
unfolding poll
too_late = refl

-- With an interval of half a second, the polling time may grow.
goes_on : poll 500 600 (replicate 20 (attempt false)) ≡ none
unfolding poll
goes_on = refl

poll-ends_example :
    (answer : Bool) × (poll 10000 30000 attempts ≡ some answer)
    × IsDecided 10000 30000 attempts answer
poll-ends_example =
    poll-ends 10000 30000 attempts (omega arith) (omega arith)
      (
        (omega arith, omega arith),
        (
          (omega arith, omega arith),
          ((omega arith, omega arith), ((omega arith, omega arith), tt)),
        ),
      )
      (omega arith)
