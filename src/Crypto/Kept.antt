-- ===== src/Crypto/Kept.antt =====
-- Which fields `pickBy` keeps when private keys are removed.
use symbol_bootstrap.Base.{
  Bool, true, false, not, ◌&&◌, ◌||◌, some, List, [], ◌∷◌, ◌≡◌, ◌⊎◌, refl, sym, subst, ◌∙◌, arith,
  inl, inr, any, Bool-cases, if◌then◌else◌,
}
use symbol_bootstrap.Base.Text.{Text}
use symbol_bootstrap.Value.{Value, undefined, null, bool, num, str, arr, obj, Fields, field}
use symbol_bootstrap.Crypto.{
  is_encryptable_key_field, is_encryptable_name, is_blacklisted, inner_blacklist,
}
use symbol_bootstrap.Crypto.Secrets.{
  Step, item, key, Holds, HoldsField, ends_at_key, is_blacklisted_step, is_protected,
}

-- With no names every path to a private key passes a blacklisted name.
any-blacklisted_nil : (p : List Step) → ends_at_key p ≡ true → any (is_blacklisted_step []) p ≡ true
unfolding is_blacklisted
any-blacklisted_nil [] h = cc
any-blacklisted_nil (key name ∷ p) h = refl
any-blacklisted_nil (item ∷ []) h = cc
any-blacklisted_nil (item ∷ s ∷ p) h = any-blacklisted_nil (s ∷ p) h

is_protected-inner :
    (b : Bool) (names : List Text) (s : Step) (p : List Step)
    → (ends_at_key (s ∷ p) && (b || any (is_blacklisted_step names) (s ∷ p)))
      ≡ is_protected (inner_blacklist b names) (s ∷ p)
is_protected-inner true names s p = elim (Bool-cases (ends_at_key (s ∷ p))) [
  | inl e ↦ rw e (rw (any-blacklisted_nil (s ∷ p) e))
  | inr e ↦ rw e
]
is_protected-inner false names s p = refl

-- Below the field `name` the names left are those of `inner_blacklist`.
is_protected-key :
    (names : List Text) (name : Text) (s : Step) (p : List Step)
    → is_protected names (key name ∷ s ∷ p)
      ≡ is_protected (inner_blacklist (is_blacklisted names name) names) (s ∷ p)
is_protected-key names name s p = is_protected-inner (is_blacklisted names name) names s p

is_encryptable-of-Holds_nil :
    (v : Value) (t name : Text)
    → Holds [] t v
    → is_encryptable_key_field v (some name) ≡ is_encryptable_name name
unfolding Holds is_encryptable_key_field
is_encryptable-of-Holds_nil (str u) t name h = refl
is_encryptable-of-Holds_nil undefined t name h = absurd h
is_encryptable-of-Holds_nil null t name h = absurd h
is_encryptable-of-Holds_nil (bool b) t name h = absurd h
is_encryptable-of-Holds_nil (num n) t name h = absurd h
is_encryptable-of-Holds_nil (arr vs) t name h = absurd h
is_encryptable-of-Holds_nil (obj fs) t name h = absurd h

is_encryptable-of-Holds_cons :
    (v : Value) (s : Step) (p : List Step) (t name : Text)
    → Holds (s ∷ p) t v
    → is_encryptable_key_field v (some name) ≡ false
unfolding Holds is_encryptable_key_field
is_encryptable-of-Holds_cons (str u) s p t name h = absurd h
is_encryptable-of-Holds_cons _ s p t name h = refl

-- The test by which `pickBy` keeps a field.
abbrev pub keeps : List Text → Text → Value → Bool
keeps names name v = not (is_blacklisted names name) || not (is_encryptable_key_field v (some name))

pub HoldsField-if_tail :
    (k : Bool) (n name : Text) (w : Value) (fs : Fields) (p : List Step) (t : Text)
    → HoldsField (key name) p t fs
    → HoldsField (key name) p t (if k then field n w fs else fs)
unfolding HoldsField
HoldsField-if_tail true n name w fs p t h = inr h
HoldsField-if_tail false n name w fs p t h = h

pub HoldsField-if_head :
    (k : Bool) (n name : Text) (w : Value) (fs : Fields) (p : List Step) (t : Text)
    → k ≡ true
    → n ≡ name
    → Holds p t w
    → HoldsField (key name) p t (if k then field n w fs else fs)
unfolding HoldsField
HoldsField-if_head k n name w fs p t e q h = rw e (inl (q, h))

-- A private key under a blacklisted name is exactly what `pickBy` drops.
is_protected-of-keeps :
    (names : List Text) (name : Text) (v : Value) (t : Text)
    → Holds [] t v
    → keeps names name v ≡ not (is_protected names (key name ∷ []))
is_protected-of-keeps names name v t h = rw (is_encryptable-of-Holds_nil v t name h) (ground arith)

pub keeps-of-Holds_cons :
    (names : List Text) (name : Text) (v : Value) (s : Step) (p : List Step) (t : Text)
    → Holds (s ∷ p) t v
    → keeps names name v ≡ true
keeps-of-Holds_cons names name v s p t h =
    rw (is_encryptable-of-Holds_cons v s p t name h) (ground arith)

pub keeps-of-unprotected :
    (names : List Text) (n name : Text) (v : Value) (t : Text)
    → n ≡ name
    → Holds [] t v
    → is_protected names (key name ∷ []) ≡ false
    → keeps names n v ≡ true
keeps-of-unprotected names n name v t e h q =
    rw e (rw (is_protected-of-keeps names name v t h) (rw q))

pub unprotected-of-keeps :
    (names : List Text) (n name : Text) (v : Value) (t : Text)
    → n ≡ name
    → Holds [] t v
    → keeps names n v ≡ true
    → is_protected names (key name ∷ []) ≡ false
unprotected-of-keeps names n name v t e h k =
    ground (arith, rw e at k, is_protected-of-keeps names name v t h)

pub inner-unprotected :
    (names : List Text) (n name : Text) (s : Step) (p : List Step)
    → n ≡ name
    → is_protected names (key name ∷ s ∷ p) ≡ false
    → is_protected (inner_blacklist (is_blacklisted names n) names) (s ∷ p) ≡ false
inner-unprotected names n name s p e q =
    subst (λ m. is_protected (inner_blacklist (is_blacklisted names m) names) (s ∷ p) ≡ false)
      (sym e) (sym (is_protected-key names name s p) ∙ q)

pub unprotected-of-inner :
    (names : List Text) (n name : Text) (s : Step) (p : List Step)
    → n ≡ name
    → is_protected (inner_blacklist (is_blacklisted names n) names) (s ∷ p) ≡ false
    → is_protected names (key name ∷ s ∷ p) ≡ false
unprotected-of-inner names n name s p e q =
    is_protected-key names name s p
    ∙ subst (λ m. is_protected (inner_blacklist (is_blacklisted names m) names) (s ∷ p) ≡ false) e q

pub HoldsField-if_cases :
    (k : Bool) (n name : Text) (w : Value) (fs : Fields) (p : List Step) (t : Text)
    → HoldsField (key name) p t (if k then field n w fs else fs)
    → ((k ≡ true) × (n ≡ name) × Holds p t w) ⊎ HoldsField (key name) p t fs
unfolding HoldsField
HoldsField-if_cases true n name w fs p t (inl (e, h)) = inl (refl, e, h)
HoldsField-if_cases true n name w fs p t (inr h) = inr h
HoldsField-if_cases false n name w fs p t h = inr h
