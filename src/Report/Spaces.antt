-- ===== src/Report/Spaces.antt =====
-- The white space around a line or a content does not matter to `createReportFromFile`.
use symbol_bootstrap.Base.{
  ℕ, ◌≡◌, refl, sym, ap, ◌∙◌, inl, inr, true, ◌&&◌, ◌||◌, List, [], ◌∷◌, Bool-cases, ◌==◌,
  if◌then◌else◌,
}
use symbol_bootstrap.Base.Text.{Text, is_empty}
use symbol_bootstrap.Base.Strings.{is_space, trim_start, trim_end, trim}
use symbol_bootstrap.Report.{line_step, split_lines, relevant}

pub trim_end_idem : (s : Text) → trim_end (trim_end s) ≡ trim_end s
unfolding trim_end
trim_end_idem [] = refl
trim_end_idem (c ∷ s) = elim (Bool-cases (is_space c && is_empty (trim_end s))) [
  | inl t ↦ rw t refl
  | inr f ↦ rw f (rw (trim_end_idem s, f) refl)
]

-- The unit that `trim_end` leaves out is white space before nothing.
trim_start-kept :
    (c : ℕ) (t u : Text)
    → trim_start t ≡ u
    → is_space c ≡ true
    → trim_start (if is_space c && is_empty t then [] else c ∷ t) ≡ u
unfolding trim_start
trim_start-kept c [] u h e = rw e h
trim_start-kept c (d ∷ t) u h e = rw e (rw e h)

pub trim_start-trim_end : (s : Text) → trim_start (trim_end s) ≡ trim_end (trim_start s)
unfolding trim_end trim_start
trim_start-trim_end [] = refl
trim_start-trim_end (c ∷ s) = elim (Bool-cases (is_space c)) [
  | inl t ↦ trim_start-kept c (trim_end s) _ (trim_start-trim_end s) t ∙ rw t refl
  | inr f ↦ rw f (rw f refl)
]

pub trim-trim_end : (s : Text) → trim (trim_end s) ≡ trim s
trim-trim_end s = ap trim_end (trim_start-trim_end s) ∙ trim_end_idem (trim_start s)

empty-trim : (p : Text) → trim_end p ≡ [] → trim p ≡ []
unfolding trim_end trim_start
empty-trim p h = sym (trim-trim_end p) ∙ ap trim h

trim-same : (p q : Text) → trim_end p ≡ trim_end q → trim p ≡ trim q
trim-same p q h = sym (trim-trim_end p) ∙ ap trim h ∙ trim-trim_end q

relevant-same :
    (p q : Text) (ps qs : List Text)
    → trim p ≡ trim q
    → relevant ps ≡ relevant qs
    → relevant (p ∷ ps) ≡ relevant (q ∷ qs)
unfolding relevant
relevant-same p q ps qs h k = rw (h, k) refl

relevant-skip : (p : Text) (ps : List Text) → trim p ≡ [] → relevant (p ∷ ps) ≡ relevant ps
unfolding relevant
relevant-skip p ps h = rw h refl

pub relevant-empty : (ps : List Text) → relevant ([] ∷ ps) ≡ relevant ps
unfolding trim_end trim_start
relevant-empty ps = relevant-skip [] ps refl

-- The lines of a content, as `split` returns them.
abbrev pub joined : Text × List Text → List Text
joined (part, parts) = part ∷ parts

abbrev pub relevant_lines : Text → List Text
relevant_lines s = relevant (joined (split_lines s))

-- Lines that the rest of the function cannot tell apart.
abbrev Same : Text × List Text → Text × List Text → Type 0
Same (p, ps) (q, qs) = (trim_end p ≡ trim_end q) × (relevant ps ≡ relevant qs)

line_step-Same : (c : ℕ) (x y : Text × List Text) → Same x y → Same (line_step c x) (line_step c y)
unfolding trim_end
line_step-Same c (p, ps) (q, qs) (e, f) = elim (Bool-cases (c == 10 || c == 13)) [
  | inl t ↦ rw t (refl, relevant-same p q ps qs (trim-same p q e) f)
  | inr n ↦ rw n (rw e refl, f)
]

line_step-space :
    (c : ℕ) (x : Text × List Text)
    → is_space c ≡ true
    → Same x ([], [])
    → Same (line_step c x) ([], [])
unfolding trim_end
line_step-space c (p, ps) h (e, f) = elim (Bool-cases (c == 10 || c == 13)) [
  | inl t ↦ rw t (refl, relevant-skip p ps (empty-trim p e) ∙ f)
  | inr n ↦ rw n (rw e (rw h refl), f)
]

split_lines-keep_unit :
    (c : ℕ) (s t : Text)
    → Same (split_lines s) (split_lines t)
    → Same
        (line_step c (split_lines s))
        (split_lines (if is_space c && is_empty t then [] else c ∷ t))
unfolding split_lines
split_lines-keep_unit c s [] h = elim (Bool-cases (is_space c)) [
  | inl t ↦ rw t (line_step-space c (split_lines s) t h)
  | inr f ↦ rw f (line_step-Same c (split_lines s) ([], []) h)
]
split_lines-keep_unit c s (d ∷ u) h = elim (Bool-cases (is_space c)) [
  | inl t ↦ rw t (line_step-Same c (split_lines s) (split_lines (d ∷ u)) h)
  | inr f ↦ rw f (line_step-Same c (split_lines s) (split_lines (d ∷ u)) h)
]

split_lines-trim_end : (s : Text) → Same (split_lines s) (split_lines (trim_end s))
unfolding trim_end split_lines
split_lines-trim_end [] = (refl, refl)
split_lines-trim_end (c ∷ s) = split_lines-keep_unit c s (trim_end s) (split_lines-trim_end s)

relevant-Same : (x y : Text × List Text) → Same x y → relevant (joined x) ≡ relevant (joined y)
relevant-Same (p, ps) (q, qs) (e, f) = relevant-same p q ps qs (trim-same p q e) f

relevant_lines-space :
    (c : ℕ) (x : Text × List Text)
    → is_space c ≡ true
    → relevant (joined (line_step c x)) ≡ relevant (joined x)
unfolding trim_end trim_start
relevant_lines-space c (p, ps) h = elim (Bool-cases (c == 10 || c == 13)) [
  | inl t ↦ rw t (relevant-empty (p ∷ ps))
  | inr n ↦ rw n (relevant-same (c ∷ p) p ps ps (rw h refl) refl)
]

relevant_lines-trim_start : (s : Text) → relevant_lines (trim_start s) ≡ relevant_lines s
unfolding trim_start split_lines
relevant_lines-trim_start [] = refl
relevant_lines-trim_start (c ∷ s) = elim (Bool-cases (is_space c)) [
  | inl t ↦ rw t (relevant_lines-trim_start s ∙ sym (relevant_lines-space c (split_lines s) t))
  | inr f ↦ rw f refl
]

pub relevant_lines-trim : (s : Text) → relevant_lines (trim s) ≡ relevant_lines s
relevant_lines-trim s =
    sym (relevant-Same _ _ (split_lines-trim_end (trim_start s))) ∙ relevant_lines-trim_start s
