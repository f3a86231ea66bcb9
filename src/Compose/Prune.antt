-- ===== src/Compose/Prune.antt =====
-- `pruneEmpty` of src/service/Utils.ts: what is undefined or null, and what is an empty object or array
-- or becomes one, is left out.
use symbol_bootstrap.Base.{Option, none, some, ◌≡◌, refl, ◌↔◌}
use symbol_bootstrap.Base.Text.{Text}
use symbol_bootstrap.Value.{
  Value, undefined, null, bool, num, str, arr, obj, Items, element, no_items, Fields, field,
  no_fields,
}

-- An object or an array that is not empty.
abbrev kept_object : Fields → Option Value
kept_object no_fields = none
kept_object (field n v fs) = some (obj (field n v fs))

abbrev kept_array : Items → Option Value
kept_array no_items = none
kept_array (element v vs) = some (arr (element v vs))

abbrev keep_field : Text → Option Value → Fields → Fields
keep_field n none fs = fs
keep_field n (some v) fs = field n v fs

abbrev keep_element : Option Value → Items → Items
keep_element none vs = vs
keep_element (some v) vs = element v vs

unfoldable mutual
  -- What stays of a value.
  pub prune_value : Value → Option Value
  prune_value undefined = none
  prune_value null = none
  prune_value (bool b) = some (bool b)
  prune_value (num n) = some (num n)
  prune_value (str t) = some (str t)
  prune_value (obj fs) = kept_object (prune_fields fs)
  prune_value (arr vs) = kept_array (prune_items vs)

  -- `prune` of an object, and of an array.
  pub prune_fields : Fields → Fields
  prune_fields no_fields = no_fields
  prune_fields (field n v fs) = keep_field n (prune_value v) (prune_fields fs)

  pub prune_items : Items → Items
  prune_items no_items = no_items
  prune_items (element v vs) = keep_element (prune_value v) (prune_items vs)

-- `pruneEmpty`, of an object.
unfoldable pub prune_empty : Fields → Fields
prune_empty fs = prune_fields fs

-- Nothing below is undefined, null, an empty object or an empty array.
unfoldable mutual
  pub IsFull : Value → Type 0
  IsFull undefined = ⊥
  IsFull null = ⊥
  IsFull (bool b) = Unit {0}
  IsFull (num n) = Unit {0}
  IsFull (str t) = Unit {0}
  IsFull (obj no_fields) = ⊥
  IsFull (obj (field n v fs)) = IsFull v × AreFullFields fs
  IsFull (arr no_items) = ⊥
  IsFull (arr (element v vs)) = IsFull v × AreFullItems vs

  pub AreFullFields : Fields → Type 0
  AreFullFields no_fields = Unit {0}
  AreFullFields (field n v fs) = IsFull v × AreFullFields fs

  pub AreFullItems : Items → Type 0
  AreFullItems no_items = Unit {0}
  AreFullItems (element v vs) = IsFull v × AreFullItems vs

abbrev IsFullIfKept : Option Value → Type 0
IsFullIfKept none = Unit {0}
IsFullIfKept (some v) = IsFull v

kept_object-IsFull : (fs : Fields) → AreFullFields fs → IsFullIfKept (kept_object fs)
unfolding IsFull
kept_object-IsFull no_fields full = tt
kept_object-IsFull (field n v fs) full = full

kept_array-IsFull : (vs : Items) → AreFullItems vs → IsFullIfKept (kept_array vs)
unfolding IsFull
kept_array-IsFull no_items full = tt
kept_array-IsFull (element v vs) full = full

keep_field-AreFull :
    (n : Text) (o : Option Value) (fs : Fields)
    → IsFullIfKept o
    → AreFullFields fs
    → AreFullFields (keep_field n o fs)
unfolding IsFull
keep_field-AreFull n none fs kept full = full
keep_field-AreFull n (some v) fs kept full = (kept, full)

keep_element-AreFull :
    (o : Option Value) (vs : Items)
    → IsFullIfKept o
    → AreFullItems vs
    → AreFullItems (keep_element o vs)
unfolding IsFull
keep_element-AreFull none vs kept full = full
keep_element-AreFull (some v) vs kept full = (kept, full)

mutual
  unfolding IsFull prune_value

  prune_value-IsFull : (v : Value) → IsFullIfKept (prune_value v)
  prune_value-IsFull undefined = tt
  prune_value-IsFull null = tt
  prune_value-IsFull (bool b) = tt
  prune_value-IsFull (num n) = tt
  prune_value-IsFull (str t) = tt
  prune_value-IsFull (obj fs) = kept_object-IsFull (prune_fields fs) (prune_fields-AreFull fs)
  prune_value-IsFull (arr vs) = kept_array-IsFull (prune_items vs) (prune_items-AreFull vs)

  prune_fields-AreFull : (fs : Fields) → AreFullFields (prune_fields fs)
  prune_fields-AreFull no_fields = tt
  prune_fields-AreFull (field n v fs) =
      keep_field-AreFull n (prune_value v) (prune_fields fs) (prune_value-IsFull v)
        (prune_fields-AreFull fs)

  prune_items-AreFull : (vs : Items) → AreFullItems (prune_items vs)
  prune_items-AreFull no_items = tt
  prune_items-AreFull (element v vs) =
      keep_element-AreFull (prune_value v) (prune_items vs) (prune_value-IsFull v)
        (prune_items-AreFull vs)

mutual
  unfolding IsFull prune_value

  prune_value_full : (v : Value) → IsFull v → prune_value v ≡ some v
  prune_value_full undefined full = elim full [ ]
  prune_value_full null full = elim full [ ]
  prune_value_full (obj no_fields) full = elim full [ ]
  prune_value_full (arr no_items) full = elim full [ ]
  prune_value_full (bool b) full = refl
  prune_value_full (num n) full = refl
  prune_value_full (str t) full = refl
  prune_value_full (obj (field n v fs)) (full, fulls) =
      rw (prune_value_full v full) (rw (prune_fields_full fs fulls) refl)
  prune_value_full (arr (element v vs)) (full, fulls) =
      rw (prune_value_full v full) (rw (prune_items_full vs fulls) refl)

  prune_fields_full : (fs : Fields) → AreFullFields fs → prune_fields fs ≡ fs
  prune_fields_full no_fields full = refl
  prune_fields_full (field n v fs) (full, fulls) =
      rw (prune_value_full v full) (rw (prune_fields_full fs fulls) refl)

  prune_items_full : (vs : Items) → AreFullItems vs → prune_items vs ≡ vs
  prune_items_full no_items full = refl
  prune_items_full (element v vs) (full, fulls) =
      rw (prune_value_full v full) (rw (prune_items_full vs fulls) refl)

-- What pruneEmpty gives holds nothing undefined or null and no empty object or array, at any depth, and
-- an object is left as it is if and only if it holds none of these.
pub prune_empty-AreFullFields :
    (fs : Fields) → AreFullFields (prune_empty fs) × ((prune_empty fs ≡ fs) ↔ AreFullFields fs)
unfolding prune_empty
prune_empty-AreFullFields fs =
    (prune_fields-AreFull fs, (λ e. rw (← e) (prune_fields-AreFull fs), prune_fields_full fs))
