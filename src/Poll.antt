-- ===== src/Poll.antt =====
-- src/service/AsyncUtils.ts: `poll`.
--
-- What an attempt sees of the world is a record; the clock that the code reads, `getMilliseconds`, is
-- the milliseconds of the current second, so that it is below 1000 and starts again each second.
pub mod Ends
mod Examples
use symbol_bootstrap.Base.{
  ℕ, ◌+◌, ◌-◌, Bool, true, false, Option, none, some, List, [], ◌∷◌, ◌==◌, if◌then◌else◌,
}

-- The answer of the check, the flag `stopProcess` after it, and the clock before and after it.
pub record Attempt : Type 0 where
  pub result : Bool
  pub stop_process : Bool
  pub start_time : ℕ
  pub end_time : ℕ

-- `Math.max(totalPollingTime - pollIntervalMs - (endTime - startTime), 0)`
abbrev pub new_polling_time : ℕ → ℕ → Attempt → ℕ
new_polling_time interval total a = total + a.start_time - (interval + a.end_time)

-- `poll`, over the attempts to come: `none` is that it still polls behind all of them.
unfoldable pub poll : ℕ → ℕ → List Attempt → Option Bool
poll interval total [] = none
poll interval total (a ∷ attempts) =
    let rest = poll interval (new_polling_time interval total a) attempts in
    if a.result
    then some true
    else if a.stop_process
    then some false
    else if new_polling_time interval total a == 0
    then some false
    else rest
