-- ===== src/Preset/Expand.antt =====
-- `expandRepeat`, `applyValueTemplate` and `expandServicesRepeat`: the templates and the repeated
-- services of a preset.
--
-- `HandlebarsUtils.runTemplate`, which may throw, is the parameter `run_template`; what lodash's
-- `range` makes of a value is a list as long as the parameter `range_length` says.
pub mod Copies
use symbol_bootstrap.Base.{
  ℕ, zero, suc, ◌+◌, Bool, true, false, not, Option, none, some, List, [], ◌∷◌, ◌==◌, if◌then◌else◌,
}
use symbol_bootstrap.Base.Decimal.{decimal}
use symbol_bootstrap.Base.Text.{Text, text, text_eq, is_empty}
use symbol_bootstrap.Base.Result.{Result, returned, raised, ◌>>=◌}
use symbol_bootstrap.Value.{
  Value, undefined, null, bool, num, str, arr, obj, Fields, field, no_fields, Items, element,
  no_items,
}
use symbol_bootstrap.Preset.{lookup, set_field, spread_fields, is_truthy}

-- `_.omit(o, name)`
unfoldable pub omit : Text → Fields → Fields
omit name no_fields = no_fields
omit name (field n v fs) =
    let rest = omit name fs in if text_eq n name then rest else field n v rest

unfoldable pub append_items : Items → Items → Items
append_items no_items ws = ws
append_items (element v vs) ws = element v (append_items vs ws)

-- An array as an object: the indexes are its keys.
unfoldable pub index_fields : ℕ → Items → Fields
index_fields n no_items = no_fields
index_fields n (element v vs) = field (decimal n) v (index_fields (suc n) vs)

abbrev pub or_one : Option Value → Value
or_one none = num 1
or_one (some v) = if is_truthy (some v) then v else num 1

-- `{ ...context, ...service, $index: index }`
abbrev pub service_context : Fields → Fields → ℕ → Fields
service_context context service index =
    set_field (text "$index") (num index) (spread_fields context service)

-- `_.range(n).map((index) => _.omit(copy(index), 'repeat'))`, from an index on.
unfoldable pub copies : ℕ → ℕ → (ℕ → Result Fields) → Result Items
copies index zero copy = returned no_items
copies index (suc n) copy = do
  fs ← copy index
  rest ← copies (suc index) n copy
  returned (element (obj (omit (text "repeat") fs)) rest)

module _ (run_template : Text → Fields → Result Text) (range_length : Value → ℕ) where
  -- How often a service is there: not at all for 0, once for no number.
  abbrev pub repeat_count : Option Value → ℕ
  repeat_count (some (num n)) = if n == 0 then 0 else range_length (num n)
  repeat_count v = range_length (or_one v)

  abbrev rendered : Text → Fields → Result Value
  rendered t context = do s ← run_template t context; returned (str s)

  unfoldable mutual
    pub apply_value_template : Value → Fields → Result Value
    apply_value_template (obj fs) context = do
      mapped ← map_values fs (spread_fields context fs)
      returned (obj mapped)
    apply_value_template (arr vs) context = do
      expanded ← expand_services_repeat vs context
      returned (arr expanded)
    apply_value_template (str t) context =
        if is_empty t then returned (str t) else rendered t context
    apply_value_template (bool b) context = returned (bool b)
    apply_value_template (num n) context = returned (num n)
    apply_value_template undefined context = returned undefined
    apply_value_template null context = returned null

    -- `_.mapValues` by `applyValueTemplate`.
    pub map_values : Fields → Fields → Result Fields
    map_values no_fields context = returned no_fields
    map_values (field n v fs) context = do
      w ← apply_value_template v context
      rest ← map_values fs context
      returned (field n w rest)

    -- The same of an array.
    pub map_indexed : ℕ → Items → Fields → Result Fields
    map_indexed i no_items context = returned no_fields
    map_indexed i (element v vs) context = do
      w ← apply_value_template v context
      rest ← map_indexed (suc i) vs context
      returned (field (decimal i) w rest)

    -- What a service becomes.
    pub expand_service : Value → Fields → Result Items
    expand_service (obj fs) context =
        copies 0 (repeat_count (lookup (text "repeat") fs))
          (λ index. map_values fs (service_context context fs index))
    expand_service (arr vs) context =
        copies 0 (repeat_count none)
          (λ index. map_indexed 0 vs (service_context context (index_fields 0 vs) index))
    expand_service (str t) context = returned (element (str t) no_items)
    expand_service (bool b) context = returned (element (bool b) no_items)
    expand_service (num n) context = returned (element (num n) no_items)
    expand_service undefined context = returned (element undefined no_items)
    expand_service null context = returned (element null no_items)

    pub expand_services_repeat : Items → Fields → Result Items
    expand_services_repeat no_items context = returned no_items
    expand_services_repeat (element v vs) context = do
      first ← expand_service v context
      rest ← expand_services_repeat vs context
      returned (append_items first rest)
