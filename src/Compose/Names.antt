-- ===== src/Compose/Names.antt =====
-- Which containers there are, and under which names docker-compose.yml holds them.
use symbol_bootstrap.Base.{
  Bool, true, false, Option, none, some, or_first, List, [], ◌∷◌, ◌≡◌, refl, ap, ◌∙◌, if◌then◌else◌,
}
use symbol_bootstrap.Base.Text.{Text, text_eq}
use symbol_bootstrap.Value.{Value, obj, Fields, no_fields}
use symbol_bootstrap.Preset.{lookup, set_field}
use symbol_bootstrap.Preset.Defaults.{lookup-set_field}
use symbol_bootstrap.Compose.File.{name_of, key_onto, key_by_name}

-- The last service of a name.
unfoldable pub last_named : Text → List Fields → Option Fields
last_named t [] = none
last_named t (s ∷ services) =
    or_first (last_named t services) (if text_eq (name_of s) t then some s else none)

abbrev pub as_object : Option Fields → Option Value
as_object none = none
as_object (some s) = some (obj s)

last_named_step :
    (o : Option Fields) (b : Bool) (s : Fields) (rest : Option Value)
    → or_first (as_object o) (if b then some (obj s) else rest)
      ≡ or_first (as_object (or_first o (if b then some s else none))) rest
last_named_step none true s rest = refl
last_named_step none false s rest = refl
last_named_step (some r) b s rest = refl

lookup-key_onto :
    (t : Text) (o : Fields) (services : List Fields)
    → lookup t (key_onto o services) ≡ or_first (as_object (last_named t services)) (lookup t o)
unfolding key_onto last_named
lookup-key_onto t o [] = refl
lookup-key_onto t o (s ∷ services) =
    lookup-key_onto t (set_field (name_of s) (obj s) o) services
    ∙ ap (λ r. or_first (as_object (last_named t services)) r)
        (lookup-set_field t (name_of s) (obj s) o)
    ∙ last_named_step (last_named t services) (text_eq (name_of s) t) s (lookup t o)

or_first-none : (o : Option Value) → or_first o none ≡ o
or_first-none none = refl
or_first-none (some v) = refl

-- Under a container name, docker-compose.yml has the last of the services with that name, and nothing
-- if no service has it.
pub lookup-key_by_name :
    (t : Text) (services : List Fields)
    → lookup t (key_by_name services) ≡ as_object (last_named t services)
unfolding key_by_name lookup
lookup-key_by_name t services =
    lookup-key_onto t no_fields services ∙ or_first-none (as_object (last_named t services))
