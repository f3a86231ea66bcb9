-- ===== src/Link/SingleKey.antt =====
-- What the transactions of the remote or the VRF key do to the account of the node.
use symbol_bootstrap.Base.{
  ◌≡◌, refl, Bool, true, Option, none, some, List, [], ◌∷◌, if◌then◌else◌, Bool-cases, inl, inr,
}
use symbol_bootstrap.Base.Text.{text_eq_refl, to_upper_case}
use symbol_bootstrap.Link.{
  LinkAction, unlink, link, KeyAccount, LinkParams, Answers, confirm_unlink, is_same_key,
  add_transaction,
}

-- The rule of the network for a key of which an account has at most one: it is linked when there is
-- none, and it is unlinked by naming it.
unfoldable pub apply_key : Option KeyAccount → KeyAccount × LinkAction → Option (Option KeyAccount)
apply_key none (k, link) = some (some k)
apply_key none (k, unlink) = none
apply_key (some l) (k, link) = none
apply_key (some l) (k, unlink) = if is_same_key k l then some none else none

-- All transactions in turn; `none` when the network rejects one.
unfoldable pub apply_keys :
    Option KeyAccount → List (KeyAccount × LinkAction) → Option (Option KeyAccount)
unfolding apply_key
apply_keys key [] = some key
apply_keys key (t ∷ ts) = elim (apply_key key t) [ none ↦ none | some next ↦ apply_keys next ts ]

-- The key that the user asks for: none to unlink, the node's own to link.
abbrev pub wanted_key : Bool → KeyAccount → Option KeyAccount
wanted_key unlink_mode account = if unlink_mode then none else some account

-- A key that is the node's own stays as it is linked, and another one goes only when the user
-- agrees.
abbrev pub key_afterwards :
    LinkParams → Answers → Option KeyAccount → KeyAccount → Option KeyAccount
key_afterwards params answers none account = wanted_key params.unlink_mode account
key_afterwards params answers (some l) account =
    if is_same_key account l
    then wanted_key params.unlink_mode l
    else if (confirm_unlink params answers).0
    then wanted_key params.unlink_mode account
    else some l

is_same_key_refl : (k : KeyAccount) → is_same_key k k ≡ true
unfolding is_same_key
is_same_key_refl k = text_eq_refl (to_upper_case k.public_key)

-- The key that is linked can be unlinked.
apply_keys-unlink :
    (a l : KeyAccount) (ts : List (KeyAccount × LinkAction))
    → is_same_key a l ≡ true
    → apply_keys (some l) ((a, unlink) ∷ ts) ≡ apply_keys none ts
unfolding apply_keys apply_key
apply_keys-unlink a l ts s = simp (apply_keys, apply_key, s)

-- The network accepts the transactions of a remote or VRF key one after the other, whatever key is
-- linked, and they leave the key that the user asks for: none in the unlink mode and the node's own
-- otherwise, except that a different key stays when the user does not agree to unlink it.
pub apply_keys-add_transaction :
    (params : LinkParams) (answers : Answers) (linked : Option KeyAccount) (account : KeyAccount)
    → apply_keys linked
        ((add_transaction params (λ k action. (k, action)) answers linked account).0)
      ≡ some (key_afterwards params answers linked account)
unfolding add_transaction apply_keys apply_key
apply_keys-add_transaction params answers none account = elim (Bool-cases params.unlink_mode) [
  | inl m ↦ rw m refl
  | inr m ↦ rw m refl
]
apply_keys-add_transaction params answers (some l) account = elim (Bool-cases params.unlink_mode) [
  | inl m ↦ elim (Bool-cases (is_same_key account l)) [
    | inl s ↦ simp (m, s) (apply_keys-unlink account l [] s)
    | inr s ↦ elim (Bool-cases ((confirm_unlink params answers).0)) [
      | inl c ↦ simp (m, s, c) (apply_keys-unlink l l [] (is_same_key_refl l))
      | inr c ↦ simp (m, s, c)
    ]
  ]
  | inr m ↦ elim (Bool-cases (is_same_key account l)) [
    | inl s ↦ simp (m, s)
    | inr s ↦ elim (Bool-cases ((confirm_unlink params answers).0)) [
      | inl c ↦ simp (m, s, c) (apply_keys-unlink l l ((account, link) ∷ []) (is_same_key_refl l))
      | inr c ↦ simp (m, s, c)
    ]
  ]
]
