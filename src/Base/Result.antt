-- ===== src/Base/Result.antt =====
-- Exceptions: a function that may throw returns a `Result`.
use mathlib.Core.Path.{◌≡◌, refl}
use mathlib.Core.Logic.{◌⊎◌, inl, inr}
use mathlib.Core.Bool.{Bool, true, false}
use Prim.Native.String.{String}

-- `KnownError` is the exception that the commands report without a stack trace. The text is the
-- fixed part of the message, without the values that it interpolates.
pub data Error : Type 0 where
  known_error : String → Error
  error : String → Error
  type_error : Error
  range_error : Error

pub data Result {ℓ} (Value : Type ℓ) : Type ℓ where
  raised : Error → Result Value
  returned : Value → Result Value

-- `if (!test) throw e`
abbrev pub guard : Bool → Error → Result (Unit {0})
guard test e = elim test [ true ↦ returned tt | false ↦ raised e ]

infixl 5 ◌>>=◌ ◌>>◌
-- What follows an exception does not run.
abbrev pub ◌>>=◌ {ℓ κ} : {X : Type ℓ} {Y : Type κ} → Result X → (X → Result Y) → Result Y
raised e >>= next = raised e
returned x >>= next = next x

abbrev pub ◌>>◌ {κ} : {Y : Type κ} → Result (Unit {0}) → Result Y → Result Y
raised e >> later = raised e
returned _ >> later = later

-- What returned in the end had a first part that returned.
pub >>=-eq-returned {ℓ κ} :
    {X : Type ℓ} {Y : Type κ} {y : Y} (first : Result X) (next : X → Result Y)
    → (first >>= next) ≡ returned y
    → (x : X) × (first ≡ returned x) × (next x ≡ returned y)
>>=-eq-returned (raised e) next h = cc
>>=-eq-returned (returned x) next h = (x, refl, h)

pub >>-eq-returned {κ} :
    {Y : Type κ} {y : Y} (first : Result (Unit {0})) (later : Result Y)
    → (first >> later) ≡ returned y
    → (first ≡ returned tt) × (later ≡ returned y)
>>-eq-returned (raised e) later h = cc
>>-eq-returned (returned tt) later h = (refl, h)

pub Result-cases {ℓ} :
    {X : Type ℓ} (m : Result X) → ((x : X) × (m ≡ returned x)) ⊎ ((e : Error) × (m ≡ raised e))
Result-cases (returned x) = inl (x, refl)
Result-cases (raised e) = inr (e, refl)
