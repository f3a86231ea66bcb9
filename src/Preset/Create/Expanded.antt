-- ===== src/Preset/Create/Expanded.antt =====
-- The services of the preset that `createPresetData` makes.
use symbol_bootstrap.Base.{◌≡◌, refl, subst, false, some, List, [], ◌∷◌, All, or_first}
use symbol_bootstrap.Base.Text.{Text, text, text_eq, text_eq_refl}
use symbol_bootstrap.Base.Result.{returned, >>=-eq-returned, >>-eq-returned}
use symbol_bootstrap.Value.{Value, arr, Fields, Items}
use symbol_bootstrap.Preset.{lookup, set_field}
use symbol_bootstrap.Preset.Defaults.{lookup-set_field}
use symbol_bootstrap.Preset.Expand.{apply_value_template, expand_services_repeat}
use symbol_bootstrap.Preset.Expand.Copies.{IsExpanded, expand_services_repeat-IsExpanded}
use symbol_bootstrap.Preset.Load.{
  PresetFiles, load_custom_preset, load_shared_preset, load_network_preset, load_assembly,
}
use symbol_bootstrap.Preset.Create.{
  PresetTools, CreatePresetParams, services_of, or_undefined, expand_field, expand_repeat,
  create_preset_data, required, resolved_string, default_assembly, resolved_custom_preset,
  merge_presets, check_network_type, with_dynamic_defaults,
}

-- The field holds services, none of which is to be repeated.
abbrev pub IsExpandedAt : Fields → Text → Type 0
IsExpandedAt preset name = (vs : Items) × (lookup name preset ≡ some (arr vs)) × IsExpanded vs

set_field-IsExpandedAt :
    (m name : Text) (v : Value) (fs : Fields)
    → text_eq m name ≡ false
    → IsExpandedAt fs name
    → IsExpandedAt (set_field m v fs) name
set_field-IsExpandedAt m name v fs d (vs, e, h) = (vs, rw (lookup-set_field name m v fs, d) e, h)

-- Names that differ from one that is set.
abbrev OtherThan : Text → List Text → Type 0
OtherThan m names = All (λ n. text_eq m n ≡ false) names

set_field-All :
    (m : Text) (v : Value) (fs : Fields) (names : List Text)
    → OtherThan m names
    → All (IsExpandedAt fs) names
    → All (IsExpandedAt (set_field m v fs)) names
set_field-All m v fs [] d h = tt
set_field-All m v fs (n ∷ names) (d, ds) (h, hs) =
    (set_field-IsExpandedAt m n v fs d h, set_field-All m v fs names ds hs)

returned_fields : (a b : Fields) → returned a ≡ returned b → a ≡ b
returned_fields a b h = cc

module _ (tools : PresetTools) where
  open tools use {run_template, range_length}

  -- Each field that is expanded adds to the expanded ones.
  expand_field-All :
      (m : Text) (preset fs fs' : Fields) (names : List Text)
      → expand_field tools m preset fs ≡ returned fs'
      → OtherThan m names
      → All (IsExpandedAt fs) names
      → All (IsExpandedAt fs') (m ∷ names)
  expand_field-All m preset fs fs' names h d hs =
      let services = services_of (lookup m preset) in
      let (vs, made, set) =
        >>=-eq-returned (expand_services_repeat run_template range_length services preset) _ h in
      let (count, expanded) =
        expand_services_repeat-IsExpanded run_template range_length services preset vs made in
      let same = lookup-set_field m m (arr vs) fs in
      subst (λ z. All (IsExpandedAt z) (m ∷ names)) (returned_fields _ fs' set)
        ((vs, rw (text_eq_refl m) at same, expanded), set_field-All m (arr vs) fs names d hs)

  abbrev pub service_names : List Text
  service_names =
      text "faucets"
      ∷ text "explorers"
      ∷ text "httpsProxies"
      ∷ text "gateways"
      ∷ text "nodes"
      ∷ text "databases"
      ∷ []

  expand_repeat-All :
      (preset result : Fields)
      → expand_repeat tools preset ≡ returned result
      → All (IsExpandedAt result) service_names
  unfolding expand_repeat text_eq
  expand_repeat-All preset result h =
      let (a, ea, ha) = >>=-eq-returned (expand_field tools (text "databases") preset preset) _ h in
      let (b, eb, hb) = >>=-eq-returned (expand_field tools (text "nodes") preset a) _ ha in
      let (c, ec, hc) = >>=-eq-returned (expand_field tools (text "gateways") preset b) _ hb in
      let (d, ed, hd) = >>=-eq-returned (expand_field tools (text "httpsProxies") preset c) _ hc in
      let (e, ee, he) = >>=-eq-returned (expand_field tools (text "explorers") preset d) _ hd in
      let (f, ef, hf) = >>=-eq-returned (expand_field tools (text "faucets") preset e) _ he in
      let (w, ew, hw) =
        >>=-eq-returned
          (apply_value_template run_template range_length
            (or_undefined (lookup (text "nemesis") preset)) preset)
          _ hf in
      let all_a = expand_field-All (text "databases") preset preset a [] ea tt tt in
      let all_b =
        expand_field-All (text "nodes") preset a b (text "databases" ∷ []) eb (refl, tt) all_a in
      let all_c =
        expand_field-All (text "gateways") preset b c (text "nodes" ∷ text "databases" ∷ []) ec
          (refl, (refl, tt)) all_b in
      let all_d =
        expand_field-All (text "httpsProxies") preset c d
          (text "gateways" ∷ text "nodes" ∷ text "databases" ∷ []) ed (refl, (refl, (refl, tt)))
          all_c in
      let all_e =
        expand_field-All (text "explorers") preset d e
          (text "httpsProxies" ∷ text "gateways" ∷ text "nodes" ∷ text "databases" ∷ []) ee
          (refl, (refl, (refl, (refl, tt)))) all_d in
      let all_f =
        expand_field-All (text "faucets") preset e f
          (text "explorers"
            ∷ text "httpsProxies"
            ∷ text "gateways"
            ∷ text "nodes"
            ∷ text "databases"
            ∷ [])
          ef (refl, (refl, (refl, (refl, (refl, tt))))) all_e in
      subst (λ z. All (IsExpandedAt z) service_names) (returned_fields _ result hw)
        (set_field-All (text "nemesis") w f service_names
          (refl, (refl, (refl, (refl, (refl, (refl, tt)))))) all_f)

  -- Whatever the files and the presets hold, when `createPresetData` returns, each of the fields
  -- `databases`, `nodes`, `gateways`, `httpsProxies`, `explorers` and `faucets` of the preset is a list
  -- of services, none of which is to be repeated any more.
  pub create_preset_data-IsExpanded :
      (files : PresetFiles) (params : CreatePresetParams) (result : Fields)
      → create_preset_data tools files params ≡ returned result
      → All (IsExpandedAt result) service_names
  unfolding create_preset_data
  create_preset_data-IsExpanded files params result h =
      let (file, e₁, h₁) = >>=-eq-returned (load_custom_preset files params.custom_preset) _ h in
      let (preset, e₂, h₂) =
        >>=-eq-returned
          (required (resolved_string params file (text "preset") params.preset)
            "Preset value could not be resolved from target folder contents.")
          _ h₁ in
      let (shared, e₃, h₃) = >>=-eq-returned (load_shared_preset files) _ h₂ in
      let (network, e₄, h₄) = >>=-eq-returned (load_network_preset files preset) _ h₃ in
      let (assembly, e₅, h₅) =
        >>=-eq-returned
          (required
            (or_first (resolved_string params file (text "assembly") params.assembly)
              (default_assembly preset))
            "Preset requires assembly.")
          _ h₄ in
      let (of_assembly, e₆, h₆) = >>=-eq-returned (load_assembly files assembly) _ h₅ in
      let custom = resolved_custom_preset tools params file in
      let merged = merge_presets tools.merge (shared ∷ network ∷ of_assembly ∷ custom ∷ []) in
      let (valid, h₇) = >>-eq-returned (check_network_type tools merged) _ h₆ in
      expand_repeat-All (with_dynamic_defaults tools preset assembly custom merged) result h₇
