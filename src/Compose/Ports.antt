-- ===== src/Compose/Ports.antt =====
-- What RunService reads of the ports and the volumes that ComposeService writes.
use symbol_bootstrap.Base.{
  ℕ, zero, suc, ◌+◌, ◌/◌, ◌%◌, Bool, true, false, List, [], ◌∷◌, ◌++◌, ◌≡◌, refl, ap, ap₂, ◌∙◌, map,
  filter, any, All, ltb, ◌==◌, arith, Bool-cases, append_assoc, inl, inr,
}
use symbol_bootstrap.Base.Text.{Text, text, text_eq}
use symbol_bootstrap.Base.Strings.{split}
use symbol_bootstrap.Base.Decimal.{decimal_digits, decimal}
use symbol_bootstrap.Run.{port_of, volume_folder}
use symbol_bootstrap.Compose.{
  OpenPort, no_port, port_flag, port_number, port_text, PortConfiguration, is_open, host_port, vol,
  resolve_ports, port_bind, mode_text,
}

abbrev pub has_colon : Text → Bool
has_colon t = any (λ u. u == b':') t

-- The part of a text before the first colon.
split-append : (s t : Text) → has_colon s ≡ false → (split b':' (s ++ b':' ∷ t)).0 ≡ s
unfolding split
split-append [] t h = refl
split-append (c ∷ s) t h = elim (Bool-cases (c == b':')) [
  | inl e ↦ ground (arith, rw e at h)
  | inr f ↦ rw f (ap (λ u. c ∷ u) (split-append s t (rw f at h)))
]

digit-not_colon : (n : ℕ) → ((48 + n % 10) == b':') ≡ false
digit-not_colon n = ground arith

decimal_digits-has_colon :
    (fuel n : ℕ) (rest : Text)
    → has_colon rest ≡ false
    → has_colon (decimal_digits fuel n rest) ≡ false
unfolding decimal_digits
decimal_digits-has_colon zero n rest h = h
decimal_digits-has_colon (suc fuel) n rest h =
    let digit : has_colon ((48 + n % 10) ∷ rest) ≡ false = rw (digit-not_colon n) h in
    elim (Bool-cases (ltb n 10)) [
      | inl t ↦ rw t digit
      | inr f ↦ rw f (decimal_digits-has_colon fuel (n / 10) ((48 + n % 10) ∷ rest) digit)
    ]

decimal-has_colon : (n : ℕ) → has_colon (decimal n) ≡ false
unfolding decimal
decimal-has_colon n = decimal_digits-has_colon (suc n) n [] refl

-- A text that is an open port has no colon.
abbrev pub HasNoColon : OpenPort → Type 0
HasNoColon (port_text t) = has_colon t ≡ false
HasNoColon _ = Unit {0}

shown_port-has_colon :
    (internal : ℕ) (port : OpenPort)
    → HasNoColon port
    → has_colon (host_port (record { internal_port = internal; open_port = port })) ≡ false
unfolding host_port
shown_port-has_colon internal no_port h = refl
shown_port-has_colon internal (port_flag true) h = decimal-has_colon internal
shown_port-has_colon internal (port_flag false) h = refl
shown_port-has_colon internal (port_number n) h = decimal-has_colon n
shown_port-has_colon internal (port_text t) h = elim (Bool-cases (text_eq t (text "true"))) [
  | inl e ↦ rw e (decimal-has_colon internal)
  | inr f ↦ rw f h
]

port_of-port_bind :
    (c : PortConfiguration) → HasNoColon c.open_port → port_of (port_bind c) ≡ host_port c
port_of-port_bind c h =
    split-append (host_port c) (decimal c.internal_port)
      (shown_port-has_colon c.internal_port c.open_port h)

ports-checked :
    (cs : List PortConfiguration)
    → All (λ c. HasNoColon c.open_port) cs
    → map (λ bind. port_of bind) (resolve_ports cs)
      ≡ map host_port (filter (λ c. is_open c.open_port) cs)
unfolding resolve_ports
ports-checked [] _ = refl
ports-checked (c ∷ cs) (h, hs) = elim (Bool-cases (is_open c.open_port)) [
  | inl t ↦ rw t (ap₂ (λ u us. u ∷ us) (port_of-port_bind c h) (ports-checked cs hs))
  | inr f ↦ rw f (ports-checked cs hs)
]

-- RunService checks, of the ports that ComposeService publishes, the ports of the host, and it
-- prepares, of a volume, the folder of the host, where neither an open port that is a text nor the
-- folder has a colon.
pub checked_ports :
    (configurations : List PortConfiguration) (folder image : Text) (read_only : Bool)
    → All (λ c. HasNoColon c.open_port) configurations
    → has_colon folder ≡ false
    → (map (λ bind. port_of bind) (resolve_ports configurations)
        ≡ map host_port (filter (λ c. is_open c.open_port) configurations))
      × (volume_folder (vol folder image read_only) ≡ folder)
unfolding vol
checked_ports configurations folder image read_only h free = (
  ports-checked configurations h,
  ap volume_folder (append_assoc folder (b':' ∷ image) (b':' ∷ mode_text read_only))
      ∙ split-append folder (image ++ b':' ∷ mode_text read_only) free,
)
