-- ===== src/Preset/Expand/Copies.antt =====
-- How many services there are after the expansion, and what is left of the repeats.
use symbol_bootstrap.Base.{ℕ, zero, suc, ◌+◌, ◌≡◌, refl, none, arith, Bool-cases, inl, inr}
use symbol_bootstrap.Base.Text.{Text, text, text_eq}
use symbol_bootstrap.Base.Result.{Result, returned, >>=-eq-returned}
use symbol_bootstrap.Value.{
  Value, undefined, null, bool, num, str, arr, obj, Fields, field, no_fields, Items, element,
  no_items,
}
use symbol_bootstrap.Preset.{lookup}
use symbol_bootstrap.Preset.Expand.{
  omit, append_items, copies, repeat_count, expand_service, expand_services_repeat,
}

unfoldable pub items_length : Items → ℕ
items_length no_items = 0
items_length (element v vs) = suc (items_length vs)

items_length-append :
    (vs ws : Items) → items_length (append_items vs ws) ≡ items_length vs + items_length ws
unfolding items_length append_items
items_length-append no_items ws = omega arith
items_length-append (element v vs) ws = omega (arith, items_length-append vs ws)

-- No service is to be repeated.
abbrev IsOnce : Value → Type 0
IsOnce (obj fs) = lookup (text "repeat") fs ≡ none
IsOnce _ = Unit

abbrev pub IsExpanded : Items → Type 0
IsExpanded no_items = Unit
IsExpanded (element v vs) = IsOnce v × IsExpanded vs

lookup-omit : (name : Text) (fs : Fields) → lookup name (omit name fs) ≡ none
unfolding lookup omit
lookup-omit name no_fields = refl
lookup-omit name (field n v fs) = elim (Bool-cases (text_eq n name)) [
  | inl t ↦ rw t (lookup-omit name fs)
  | inr t ↦ rw (t, t) (lookup-omit name fs)
]

IsExpanded-append :
    (vs ws : Items) → IsExpanded vs → IsExpanded ws → IsExpanded (append_items vs ws)
unfolding append_items
IsExpanded-append no_items ws h k = k
IsExpanded-append (element v vs) ws (s, h) k = (s, IsExpanded-append vs ws h k)

-- What an expansion comes to.
abbrev Comes : ℕ → Items → Type 0
Comes n vs = (items_length vs ≡ n) × IsExpanded vs

returned_items : (vs ws : Items) (n : ℕ) → returned vs ≡ returned ws → Comes n vs → Comes n ws
returned_items vs ws n h c = rw (← same_items vs ws h) c
  where
    same_items : (xs ys : Items) → returned xs ≡ returned ys → xs ≡ ys
    same_items xs ys e = cc

copies-Comes :
    (index n : ℕ) (copy : ℕ → Result Fields) (vs : Items)
    → copies index n copy ≡ returned vs
    → Comes n vs
unfolding copies items_length
copies-Comes index zero copy vs h = returned_items no_items vs 0 h (refl, tt)
copies-Comes index (suc n) copy vs h =
    let (fs, copied, h₁) = >>=-eq-returned (copy index) _ h in
    let (rest, others, h₂) = >>=-eq-returned (copies (suc index) n copy) _ h₁ in
    let (count, expanded) = copies-Comes (suc index) n copy rest others in
    returned_items _ vs (suc n) h₂
      (omega (arith, count), (lookup-omit (text "repeat") fs, expanded))

module _ (run_template : Text → Fields → Result Text) (range_length : Value → ℕ) where
  -- The number of the services that a service becomes.
  abbrev pub service_count : Value → ℕ
  service_count (obj fs) = repeat_count run_template range_length (lookup (text "repeat") fs)
  service_count (arr vs) = repeat_count run_template range_length none
  service_count _ = 1

  unfoldable pub services_count : Items → ℕ
  services_count no_items = 0
  services_count (element v vs) = service_count v + services_count vs

  expand_service-Comes :
      (v : Value) (context : Fields) (vs : Items)
      → expand_service run_template range_length v context ≡ returned vs
      → Comes (service_count v) vs
  unfolding expand_service items_length
  expand_service-Comes (obj fs) context vs h = copies-Comes 0 _ _ vs h
  expand_service-Comes (arr ws) context vs h = copies-Comes 0 _ _ vs h
  expand_service-Comes (str t) context vs h = returned_items _ vs 1 h (refl, (tt, tt))
  expand_service-Comes (bool b) context vs h = returned_items _ vs 1 h (refl, (tt, tt))
  expand_service-Comes (num n) context vs h = returned_items _ vs 1 h (refl, (tt, tt))
  expand_service-Comes undefined context vs h = returned_items _ vs 1 h (refl, (tt, tt))
  expand_service-Comes null context vs h = returned_items _ vs 1 h (refl, (tt, tt))

  -- When `expandServicesRepeat` returns, no service is left that is to be repeated, and there are as
  -- many services as the `repeat`s say together: none for 0, one where it is missing, and otherwise as
  -- many as the range of lodash is long.
  pub expand_services_repeat-IsExpanded :
      (services : Items) (context : Fields) (vs : Items)
      → expand_services_repeat run_template range_length services context ≡ returned vs
      → (items_length vs ≡ services_count services) × IsExpanded vs
  unfolding expand_services_repeat services_count items_length
  expand_services_repeat-IsExpanded no_items context vs h =
      returned_items no_items vs 0 h (refl, tt)
  expand_services_repeat-IsExpanded (element v services) context vs h =
      let (first, one_service, h₁) =
        >>=-eq-returned (expand_service run_template range_length v context) _ h in
      let (rest, others, h₂) =
        >>=-eq-returned (expand_services_repeat run_template range_length services context) _ h₁ in
      let (n, expanded) = expand_service-Comes v context first one_service in
      let (m, all_expanded) = expand_services_repeat-IsExpanded services context rest others in
      returned_items _ vs _ h₂ (
        omega (arith, n, m, items_length-append first rest),
        IsExpanded-append first rest expanded all_expanded,
      )
