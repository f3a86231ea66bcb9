-- ===== src/Poll/Ends.antt =====
-- How long `poll` polls.
use symbol_bootstrap.Base.{
  ℕ, suc, ◌+◌, ◌-◌, ◌*◌, ◌≤◌, ◌<◌, ◌≡◌, refl, ap, ◌⊎◌, Bool, true, false, some, List, [], ◌∷◌, ◌++◌,
  length, map, All, ◌==◌, arith, Bool-cases, inl, inr,
}
use mathlib.Core.List.{Memᴰ}
use native.Mathlib.Nat.{suc-mul}
use symbol_bootstrap.Poll.{Attempt, new_polling_time, poll}

-- The clock is below 1000.
abbrev pub IsTimed : Attempt → Type 0
IsTimed a = (a.start_time < 1000) × (a.end_time < 1000)

budget :
    (interval total n s e : ℕ)
    → 1000 ≤ interval
    → s < 1000
    → total ≤ suc n * (interval - 999)
    → total + s - (interval + e) ≤ n * (interval - 999)
budget interval total n s e i t h = omega (arith, suc-mul n (interval - 999))

-- The time that attempts used up, with the interval behind each, and their starts.
unfoldable pub used : ℕ → List Attempt → ℕ
used interval [] = 0
used interval (a ∷ attempts) = interval + a.end_time + used interval attempts

unfoldable pub started : List Attempt → ℕ
started [] = 0
started (a ∷ attempts) = a.start_time + started attempts

-- The polling time is over after these attempts.
abbrev pub IsOver : ℕ → ℕ → List Attempt → Type 0
IsOver interval total attempts = total + started attempts ≤ used interval attempts

-- An attempt after which `poll` goes on, if there is time.
abbrev pub IsVain : Attempt → Type 0
IsVain a = (a.result ≡ false) × (a.stop_process ≡ false)

-- What the answer is to be when the attempt `a` decides, behind others.
abbrev pub IsAnswer : ℕ → ℕ → List Attempt → Attempt → Bool → Type 0
IsAnswer interval total before a answer =
    ((a.result ≡ true) × (answer ≡ true))
    ⊎ ((a.result ≡ false)
        × ((a.stop_process ≡ true) ⊎ IsOver interval total (before ++ a ∷ []))
        × (answer ≡ false))

-- The attempts are those that were made in vain, one that decides, and those that were not made.
pub record IsDecided (interval total : ℕ) (attempts : List Attempt) (answer : Bool) : Type 0 where
  pub before : List Attempt
  pub last : Attempt
  pub unmade : List Attempt
  pub parts : attempts ≡ before ++ (last ∷ unmade)
  pub in_vain : All IsVain before
  pub in_time : used interval before < total + started before
  pub answers : IsAnswer interval total before last answer

IsDecided-first :
    (interval total : ℕ) (a : Attempt) (attempts : List Attempt) (answer : Bool)
    → 1 ≤ total
    → IsAnswer interval total [] a answer
    → IsDecided interval total (a ∷ attempts) answer
unfolding used started
IsDecided-first interval total a attempts answer p h = record {
  before = [];
  last = a;
  unmade = attempts;
  parts = refl;
  in_vain = tt;
  in_time = omega (arith, p);
  answers = h;
}

-- An attempt in vain, with time left, comes before the others.
IsAnswer-later :
    (interval total : ℕ) (a : Attempt) (before : List Attempt) (last : Attempt) (answer : Bool)
    → interval + a.end_time < total + a.start_time
    → IsAnswer interval (new_polling_time interval total a) before last answer
    → IsAnswer interval total (a ∷ before) last answer
unfolding used started
IsAnswer-later interval total a before last answer h k = elim k [
  | inl e ↦ inl e
  | inr (fails, why, e) ↦ elim why [
    | inl stopped ↦ inr (fails, inl stopped, e)
    | inr over ↦ inr (fails, inr (omega (arith, h, over)), e)
  ]
]

IsDecided-later :
    (interval total : ℕ) (a : Attempt) (attempts : List Attempt) (answer : Bool)
    → IsVain a
    → interval + a.end_time < total + a.start_time
    → IsDecided interval (new_polling_time interval total a) attempts answer
    → IsDecided interval total (a ∷ attempts) answer
unfolding used started
IsDecided-later interval total a attempts answer vain h d = record {
  before = a ∷ d.before;
  last = d.last;
  unmade = d.unmade;
  parts = ap (λ xs. a ∷ xs) d.parts;
  in_vain = (vain, d.in_vain);
  in_time = (let t = d.in_time in omega (arith, h, t));
  answers = IsAnswer-later interval total a d.before d.last answer h d.answers;
}

-- When the interval is at least a second, of which up to 999 milliseconds are lost to the clock, and
-- there are as many attempts as the rest of the interval goes into the polling time, which is not 0,
-- then `poll` ends. The attempts that it makes fail without the process being stopped, and with time
-- left behind them, up to one that decides: if that one succeeds, the answer is true; if it fails,
-- the answer is false, and the process was stopped or the polling time is over.
pub poll-ends :
    (interval total : ℕ) (attempts : List Attempt)
    → 1000 ≤ interval
    → 1 ≤ total
    → All IsTimed attempts
    → total ≤ length attempts * (interval - 999)
    → (answer : Bool) × (poll interval total attempts ≡ some answer)
      × IsDecided interval total attempts answer
unfolding poll used started
poll-ends interval total [] i p t h = absurd (omega arith)
poll-ends interval total (a ∷ attempts) i p ((s, e), t) h = elim (Bool-cases a.result) [
  | inl ok ↦ (true, rw ok refl, IsDecided-first interval total a attempts true p (inl (ok, refl)))
  | inr fails ↦ elim (Bool-cases a.stop_process) [
    | inl stopped ↦ (
      false,
      rw (fails, stopped) refl,
      IsDecided-first interval total a attempts false p (inr (fails, inl stopped, refl)),
    )
    | inr goes ↦ elim (Bool-cases (new_polling_time interval total a == 0)) [
      | inl over ↦ (
        false,
        rw (fails, goes, over) refl,
        IsDecided-first interval total a attempts false p
            (inr (fails, inr (ground (arith, over)), refl)),
      )
      | inr more ↦
          let (answer, ended, decided) =
            poll-ends interval (new_polling_time interval total a) attempts i (ground (arith, more))
              t (budget interval total (length attempts) a.start_time a.end_time i s h) in
          (
            answer,
            rw (fails, goes, more) ended,
            IsDecided-later interval total a attempts answer (fails, goes) (ground (arith, more))
                decided,
          )
    ]
  ]
]

-- An answer of true comes of an attempt that succeeded.
pub poll-true {ℓ} :
    {A : Type ℓ} (f : A → Attempt) (interval total : ℕ) (xs : List A)
    → poll interval total (map f xs) ≡ some true
    → (x : A) × Memᴰ x xs × ((f x).result ≡ true)
unfolding poll
poll-true f interval total [] h = cc
poll-true f interval total (x ∷ xs) h = elim (Bool-cases (f x).result) [
  | inl ok ↦ (x, Memᴰ.head refl, ok)
  | inr fails ↦ elim (Bool-cases (f x).stop_process) [
    | inl stopped ↦ ground (arith, rw (fails, stopped) at h)
    | inr goes ↦ elim (Bool-cases (new_polling_time interval total (f x) == 0)) [
      | inl over ↦ ground (arith, rw (fails, goes, over) at h)
      | inr more ↦
          let (y, member, ok) =
            poll-true f interval (new_polling_time interval total (f x)) xs
              (rw (fails, goes, more) at h) in
          (y, Memᴰ.tail member, ok)
    ]
  ]
]
