-- ===== src/Crypto/Removal.antt =====
-- `removePrivateKeys` removes the private keys under the blacklisted names and nothing else.
use symbol_bootstrap.Base.{false, List, [], ◌∷◌, ◌≡◌, ◌↔◌, refl, inl, inr}
use symbol_bootstrap.Base.Text.{Text}
use symbol_bootstrap.Value.{
  Value, undefined, str, arr, obj, Items, no_items, element, Fields, no_fields, field,
}
use symbol_bootstrap.Crypto.{
  is_blacklisted, inner_blacklist, remove_private_keys, remove_private_keys_items,
  remove_private_keys_fields,
}
use symbol_bootstrap.Crypto.Secrets.{Step, item, key, Holds, HoldsItem, HoldsField, is_protected}
use symbol_bootstrap.Crypto.Kept.{
  keeps, HoldsField-if_tail, HoldsField-if_head, keeps-of-Holds_cons, keeps-of-unprotected,
  unprotected-of-keeps, inner-unprotected, unprotected-of-inner, HoldsField-if_cases,
}

mutual
  unfolding Holds remove_private_keys

  Holds-remove :
      (names : List Text) (p : List Step) (t : Text) (v : Value)
      → Holds p t v
      → is_protected names p ≡ false
      → Holds p t (remove_private_keys names v)
  Holds-remove names [] t (str u) h q = h
  Holds-remove names (item ∷ []) t (arr vs) h q = HoldsItem-remove names [] t vs h refl
  Holds-remove names (item ∷ s ∷ p) t (arr vs) h q = HoldsItem-remove names (s ∷ p) t vs h q
  Holds-remove names (key n ∷ p) t (obj fs) h q = HoldsField-remove names n p t fs h q
  Holds-remove names _ t undefined h q = absurd h
  Holds-remove names _ t v h q = absurd h

  HoldsItem-remove :
      (names : List Text) (p : List Step) (t : Text) (vs : Items)
      → HoldsItem item p t vs
      → is_protected names p ≡ false
      → HoldsItem item p t (remove_private_keys_items names vs)
  HoldsItem-remove names p t no_items h q = absurd h
  HoldsItem-remove names p t (element v vs) (inl h) q = inl (Holds-remove names p t v h q)
  HoldsItem-remove names p t (element v vs) (inr h) q = inr (HoldsItem-remove names p t vs h q)

  HoldsField-remove :
      (names : List Text) (name : Text) (p : List Step) (t : Text) (fs : Fields)
      → HoldsField (key name) p t fs
      → is_protected names (key name ∷ p) ≡ false
      → HoldsField (key name) p t (remove_private_keys_fields names fs)
  HoldsField-remove names name p t no_fields h q = absurd h
  HoldsField-remove names name p t (field n v fs) (inr h) q =
      HoldsField-if_tail (keeps names n v) n name _ _ p t (HoldsField-remove names name p t fs h q)
  HoldsField-remove names name [] t (field n v fs) (inl (e, h)) q =
      HoldsField-if_head (keeps names n v) n name _ _ [] t
        (keeps-of-unprotected names n name v t e h q) e
        (Holds-remove (inner_blacklist (is_blacklisted names n) names) [] t v h refl)
  HoldsField-remove names name (s ∷ p) t (field n v fs) (inl (e, h)) q =
      HoldsField-if_head (keeps names n v) n name _ _ (s ∷ p) t
        (keeps-of-Holds_cons names n v s p t h) e
        (Holds-remove (inner_blacklist (is_blacklisted names n) names) (s ∷ p) t v h
          (inner-unprotected names n name s p e q))

mutual
  unfolding Holds remove_private_keys

  remove-Holds :
      (names : List Text) (p : List Step) (t : Text) (v : Value)
      → Holds p t (remove_private_keys names v)
      → Holds p t v × (is_protected names p ≡ false)
  remove-Holds names [] t (str u) h = (h, refl)
  remove-Holds names (item ∷ []) t (arr vs) h = ((remove-HoldsItem names [] t vs h).0, refl)
  remove-Holds names (item ∷ s ∷ p) t (arr vs) h = remove-HoldsItem names (s ∷ p) t vs h
  remove-Holds names (key n ∷ p) t (obj fs) h = remove-HoldsField names n p t fs h
  remove-Holds names _ t undefined h = absurd h
  remove-Holds names _ t v h = absurd h

  remove-HoldsItem :
      (names : List Text) (p : List Step) (t : Text) (vs : Items)
      → HoldsItem item p t (remove_private_keys_items names vs)
      → HoldsItem item p t vs × (is_protected names p ≡ false)
  remove-HoldsItem names p t no_items h = absurd h
  remove-HoldsItem names p t (element v vs) (inl h) =
      let (k, q) = remove-Holds names p t v h in (inl k, q)
  remove-HoldsItem names p t (element v vs) (inr h) =
      let (k, q) = remove-HoldsItem names p t vs h in (inr k, q)

  remove-HoldsField :
      (names : List Text) (name : Text) (p : List Step) (t : Text) (fs : Fields)
      → HoldsField (key name) p t (remove_private_keys_fields names fs)
      → HoldsField (key name) p t fs × (is_protected names (key name ∷ p) ≡ false)
  remove-HoldsField names name p t no_fields h = absurd h
  remove-HoldsField names name [] t (field n v fs) h =
      elim (HoldsField-if_cases (keeps names n v) n name _ _ [] t h) [
        | inl (k, e, w) ↦
            let (u, _) = remove-Holds (inner_blacklist (is_blacklisted names n) names) [] t v w in
            (inl (e, u), unprotected-of-keeps names n name v t e u k)
        | inr r ↦ let (u, q) = remove-HoldsField names name [] t fs r in (inr u, q)
      ]
  remove-HoldsField names name (s ∷ p) t (field n v fs) h =
      elim (HoldsField-if_cases (keeps names n v) n name _ _ (s ∷ p) t h) [
        | inl (k, e, w) ↦
            let (u, q) =
              remove-Holds (inner_blacklist (is_blacklisted names n) names) (s ∷ p) t v w in
            (inl (e, u), unprotected-of-inner names n name s p e q)
        | inr r ↦ let (u, q) = remove-HoldsField names name (s ∷ p) t fs r in (inr u, q)
      ]

-- A text stands at a path of the value that `removePrivateKeys` returns exactly when it stands at
-- that path of the given value and the path is not that of a private key at or below a field with a
-- blacklisted name (any field, when there are no names).
pub remove_private_keys_exact :
    (names : List Text) (p : List Step) (t : Text) (v : Value)
    → Holds p t (remove_private_keys names v) ↔ (Holds p t v × (is_protected names p ≡ false))
remove_private_keys_exact names p t v =
    (remove-Holds names p t v, λ (h, q). Holds-remove names p t v h q)
