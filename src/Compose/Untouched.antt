-- ===== src/Compose/Untouched.antt =====
-- The fields that `resolveService` and `resolveDebugOptions` leave as they are.
use symbol_bootstrap.Base.{
  Bool, true, false, ◌||◌, Option, none, some, List, [], ◌∷◌, ◌≡◌, refl, All, ◌∙◌, Bool-cases, inl,
  inr, is_some,
}
use symbol_bootstrap.Base.Text.{Text, text, text_eq}
use symbol_bootstrap.Account.{truthy}
use symbol_bootstrap.Value.{Value, obj, field, no_fields, Fields}
use symbol_bootstrap.Preset.{lookup, set_field, spread_fields}
use symbol_bootstrap.Preset.Defaults.{lookup-set_field}
use symbol_bootstrap.Compose.{
  DockerServicePreset, resolve_debug_options, resolved_raw, with_networks, default_network,
  set_string,
}

abbrev touched : List Text
touched =
    text "networks"
    ∷ text "hostname"
    ∷ text "stop_grace_period"
    ∷ text "security_opt"
    ∷ text "cap_add"
    ∷ text "privileged"
    ∷ []

-- A name of none of the fields that are set.
abbrev pub IsUntouched : Text → Type 0
IsUntouched name = All (λ n. text_eq n name ≡ false) touched

module _ (name : Text) where
  set_other :
      (n : Text) (v : Value) (o : Fields)
      → text_eq n name ≡ false
      → lookup name (set_field n v o) ≡ lookup name o
  set_other n v o h = lookup-set_field name n v o ∙ rw h refl

  set_string-other :
      (n : Text) (t : Option Text) (o : Fields)
      → text_eq n name ≡ false
      → lookup name (set_string n t o) ≡ lookup name o
  set_string-other n none o h = refl
  set_string-other n (some t) o h = set_other n _ o h

  with_networks-other :
      (docker : DockerServicePreset) (raw : Fields)
      → text_eq (text "networks") name ≡ false
      → lookup name (with_networks docker raw) ≡ lookup name raw
  with_networks-other docker raw h =
      elim (Bool-cases (is_some (truthy docker.host) || is_some (truthy docker.ipv4_address))) [
        | inl t ↦ rw t (
            set_other (text "networks")
              (obj (field (text "default") (obj (default_network docker)) no_fields)) raw h)
        | inr f ↦ rw f refl
      ]

  pub resolved_raw-untouched :
      (docker : DockerServicePreset) (raw : Fields)
      → IsUntouched name
      → lookup name (resolved_raw docker raw) ≡ lookup name raw
  unfolding resolved_raw
  resolved_raw-untouched docker raw (h, (k, (l, _))) =
      set_string-other (text "stop_grace_period") (truthy docker.stop_grace_period) _ l
      ∙ set_string-other (text "hostname") (truthy docker.host) _ k
      ∙ with_networks-other docker raw h

  debug_service_params-untouched :
      (raw : Fields)
      → IsUntouched name
      → lookup name (spread_fields raw (resolve_debug_options true (some true))) ≡ lookup name raw
  unfolding spread_fields resolve_debug_options
  debug_service_params-untouched raw (_, (_, (_, (h, (k, (l, _)))))) =
      set_other (text "privileged") _ _ l
      ∙ set_other (text "cap_add") _ _ k
      ∙ set_other (text "security_opt") _ raw h

  pub debug_options-untouched :
      (raw : Fields) (shared : Bool) (own : Option Bool)
      → IsUntouched name
      → lookup name (spread_fields raw (resolve_debug_options shared own)) ≡ lookup name raw
  unfolding spread_fields resolve_debug_options
  debug_options-untouched raw shared (some false) h = refl
  debug_options-untouched raw shared (some true) h = debug_service_params-untouched raw h
  debug_options-untouched raw true none h = debug_service_params-untouched raw h
  debug_options-untouched raw false none h = refl
