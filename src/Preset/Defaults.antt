-- ===== src/Preset/Defaults.antt =====
-- The defaults of a node stand behind what its preset says.
use symbol_bootstrap.Base.{
  ◌≡◌, refl, true, false, not, Option, none, some, or_first, ap, ◌∙◌, ◌||◌, Option-cases,
  Bool-cases, inl, inr, if◌then◌else◌,
}
use symbol_bootstrap.Base.Text.{Text, text, text_eq, text_eq-eq, text_eq_refl}
use symbol_bootstrap.Value.{Value, Fields, field, no_fields}
use symbol_bootstrap.Preset.{
  lookup, set_field, spread_fields, is_truthy, node_defaults, get_default_configuration,
  with_defaults,
}

-- The value that an object's text gives a name: the last one.
unfoldable pub last_value : Text → Fields → Option Value
last_value name no_fields = none
last_value name (field n v fs) =
    or_first (last_value name fs) (if text_eq n name then some v else none)

-- Two different names are not both the name.
different :
    (name n m : Text) (v w : Value)
    → text_eq m n ≡ false
    → text_eq m name ≡ true
    → some w ≡ (if text_eq n name then some v else some w)
different name n m v w e t = elim (Bool-cases (text_eq n name)) [
  | inl u ↦
      let equal = text_eq_refl name in
      let first = text_eq-eq m name t in let second = text_eq-eq n name u in cc
  | inr u ↦ rw u refl
]

pub lookup-set_field :
    (name n : Text) (v : Value) (fs : Fields)
    → lookup name (set_field n v fs) ≡ (if text_eq n name then some v else lookup name fs)
unfolding lookup set_field
lookup-set_field name n v no_fields = refl
lookup-set_field name n v (field m w fs) = elim (Bool-cases (text_eq m n)) [
  | inl e ↦ rw e (
      rw (text_eq-eq m n e)
        (elim (Bool-cases (text_eq n name)) [ inl t ↦ rw t refl | inr t ↦ rw t refl ]))
  | inr e ↦ rw e (elim (Bool-cases (text_eq m name)) [
    | inl t ↦ rw t (different name n m v w e t)
    | inr t ↦ rw t (lookup-set_field name n v fs)
  ])
]

lookup-spread_fields :
    (name : Text) (a b : Fields)
    → lookup name (spread_fields a b) ≡ or_first (last_value name b) (lookup name a)
unfolding spread_fields last_value
lookup-spread_fields name a no_fields = refl
lookup-spread_fields name a (field n v fs) = rw (lookup-spread_fields name (set_field n v a) fs) (
    rw (lookup-set_field name n v a) (elim (Option-cases (last_value name fs)) [
      | inl e ↦ rw e (elim (Bool-cases (text_eq n name)) [ inl t ↦ rw t refl | inr t ↦ rw t refl ])
      | inr (w, e) ↦ rw e refl
    ]))

-- What `getDefaultConfiguration` decides.
get_default_configuration-eq :
    (node : Fields)
    → get_default_configuration node
      ≡ node_defaults
          (not (is_truthy (lookup (text "api") node))
            || is_truthy (lookup (text "harvesting") node))
          (is_truthy (lookup (text "api") node))
unfolding get_default_configuration
get_default_configuration-eq node = elim (Bool-cases (is_truthy (lookup (text "api") node))) [
  | inl a ↦ rw a (elim (Bool-cases (is_truthy (lookup (text "harvesting") node))) [
    | inl h ↦ rw h refl
    | inr h ↦ rw h refl
  ])
  | inr a ↦ rw a (elim (Bool-cases (is_truthy (lookup (text "harvesting") node))) [
    | inl h ↦ rw h refl
    | inr h ↦ rw h refl
  ])
]

-- A field of a node with its defaults has the value that the preset gives it, the last one if there
-- are several; a field that the preset does not give has the default: an API node has the API
-- extensions and no automatic clean-up, every other node the reverse, and every node is a sync
-- source but an API node that does not harvest.
pub lookup-with_defaults :
    (name : Text) (node : Fields)
    → lookup name (with_defaults node)
      ≡ or_first (last_value name node) (
          lookup name (
            node_defaults
              (not (is_truthy (lookup (text "api") node))
                || is_truthy (lookup (text "harvesting") node))
              (is_truthy (lookup (text "api") node))))
lookup-with_defaults name node =
    lookup-spread_fields name (get_default_configuration node) node
    ∙ ap (λ d. or_first (last_value name node) (lookup name d)) (get_default_configuration-eq node)
