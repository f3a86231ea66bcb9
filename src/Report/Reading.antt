-- ===== src/Report/Reading.antt =====
-- What `createReportFromFile` makes of one printed line.
use symbol_bootstrap.Base.{
  ℕ, ◌≡◌, refl, ap, subst, inl, inr, Bool, true, false, not, ◌&&◌, ◌||◌, none, some, List, [], ◌∷◌,
  ◌++◌, Bool-cases, ==_iff, ◌==◌, if◌then◌else◌, arith,
}
use symbol_bootstrap.Base.Text.{Text, is_empty}
use symbol_bootstrap.Base.Strings.{is_space, trim_start, trim_end}
use symbol_bootstrap.Report.{
  line_step, split_lines, relevant, is_header_unit, bracketed, header_of, segment_property,
}
use symbol_bootstrap.Report.Spaces.{joined, relevant_lines}
use symbol_bootstrap.Report.Blocks.{
  inside_line, in_segment, in_title, name_start, in_name, in_value, Passes,
}

pub if_not {ℓ} : {A : Type ℓ} (x y : A) (b : Bool) → not b ≡ true → (if b then x else y) ≡ y
if_not x y true h = cc
if_not x y false h = refl

pub both : (a b : Bool) → (a && b) ≡ true → (a ≡ true) × (b ≡ true)
both true b h = (refl, h)
both false b h = cc

pub neither : (a b : Bool) → not (a || b) ≡ true → (a ≡ false) × (b ≡ false)
neither true b h = cc
neither false true h = cc
neither false false h = (refl, refl)

line_step-break : (x : Text × List Text) → line_step 10 x ≡ ([], joined x)
line_step-break (p, ps) = refl

split_lines-append :
    (l s : Text) → Passes inside_line l → split_lines (l ++ 10 ∷ s) ≡ (l, joined (split_lines s))
unfolding split_lines
split_lines-append [] s h = line_step-break (split_lines s)
split_lines-append (c ∷ l) s (h, hs) =
    rw (split_lines-append l s hs) (if_not _ _ (c == 10 || c == 13) h)

pub relevant_lines-append :
    (l s : Text)
    → Passes inside_line l
    → relevant_lines (l ++ 10 ∷ s) ≡ relevant (l ∷ joined (split_lines s))
relevant_lines-append l s h = ap (λ x. relevant (joined x)) (split_lines-append l s h)

nonempty-append : (a b : Text) → is_empty b ≡ false → is_empty (a ++ b) ≡ false
nonempty-append [] b h = h
nonempty-append (c ∷ a) b h = refl

if_nonempty :
    (b : Bool) (c : ℕ) (t : Text)
    → is_empty t ≡ false
    → (if b && is_empty t then [] else c ∷ t) ≡ c ∷ t
if_nonempty true c t h = rw h refl
if_nonempty false c t h = refl

pub trim_end-append :
    (a b : Text) → is_empty (trim_end b) ≡ false → trim_end (a ++ b) ≡ a ++ trim_end b
unfolding trim_end
trim_end-append [] b h = refl
trim_end-append (c ∷ a) b h =
    rw (trim_end-append a b h)
      (if_nonempty (is_space c) c (a ++ trim_end b) (nonempty-append a (trim_end b) h))

pub trim_end-blank : (a : Text) → trim_end (a ++ b' ' ∷ []) ≡ trim_end a
unfolding trim_end is_space
trim_end-blank [] = refl
trim_end-blank (c ∷ a) = rw (trim_end-blank a) refl

pub trim_start-name : (n t : Text) → name_start n ≡ true → trim_start (n ++ t) ≡ n ++ t
unfolding trim_start
trim_start-name [] t h = ground arith
trim_start-name (c ∷ n) t h = let (e, _) = neither (is_space c) (c == b'#') h in rw e refl

pub Passes-trim_end : (p : ℕ → Bool) (t : Text) → Passes p t → Passes p (trim_end t)
unfolding trim_end
Passes-trim_end p [] h = tt
Passes-trim_end p (c ∷ t) (h, hs) = elim (Bool-cases (is_space c && is_empty (trim_end t))) [
  | inl e ↦ rw e tt
  | inr e ↦ rw e (h, Passes-trim_end p t hs)
]

pub header_of-none : (t : Text) → Passes in_name t → header_of t ≡ none
unfolding header_of
header_of-none [] h = refl
header_of-none (c ∷ t) (h, hs) =
    rw (header_of-none t hs)
      (let (_, e) = both (in_segment c) (not (c == b'[')) h in if_not _ _ (c == b'[') e)

pub segment_property-none : (t : Text) → Passes in_value t → segment_property t ≡ none
unfolding segment_property
segment_property-none [] h = refl
segment_property-none (c ∷ t) (h, hs) =
    rw (segment_property-none t hs)
      (let (_, e) = both (in_name c) (not (c == b'=')) h in if_not _ _ (c == b'=') e)

pub segment_property-append :
    (a x : Text) → segment_property x ≡ none → segment_property (a ++ b'=' ∷ x) ≡ some (a, x)
unfolding segment_property
segment_property-append [] x h = rw h refl
segment_property-append (c ∷ a) x h = rw (segment_property-append a x h) refl

-- A closing bracket does not stand in a header.
header_unit-other : (c : ℕ) → is_header_unit c ≡ true → (c == b']') ≡ false
unfolding is_space
header_unit-other c h = elim (Bool-cases (c == b']')) [
  | inl e ↦
      let (same, _) = ==_iff c b']' in
      let closing : false ≡ true = subst (λ d. is_header_unit d ≡ true) (same e) h in cc
  | inr e ↦ e
]

pub bracketed-title : (t : Text) → Passes in_title t → bracketed (t ++ b']' ∷ []) ≡ some t
unfolding bracketed
bracketed-title [] h = refl
bracketed-title (c ∷ t) (h, hs) =
    rw (bracketed-title t hs)
      (let (e, _) = both (is_header_unit c) (inside_line c) h in rw (header_unit-other c e, e) refl)
