-- ===== src/Remote/Services.antt =====
-- The urls that `resolveRestUrlsForServices` resolves.
use symbol_bootstrap.Base.{
  ◌+◌, ◌≤◌, ◌≡◌, refl, ap, sym, ◌∙◌, ◌||◌, Option, none, some, List, [], ◌∷◌, ◌++◌, map, any,
  or_else, arith, Bool-cases, inl, inr,
}
use symbol_bootstrap.Base.Counting.{one, count}
use symbol_bootstrap.Base.Strings.{uniq_from}
use symbol_bootstrap.Base.Text.{Text, text_eq, text_eq-eq, is_empty}
use symbol_bootstrap.Account.{truthy}
use symbol_bootstrap.Action.{Outcome, done, pure, throw, gets, ◌>>=◌}
use symbol_bootstrap.Remote.{first_of}
use symbol_bootstrap.Remote.Service.{
  RemotePreset, StatisticsNode, RestUrls, NamedNode, RestService, service_url, with_default,
  get_rest_urls, resolve_rest_urls_for_services, gateway_urls, statistics_nodes,
}

-- `uniq` leaves an element once, and not at all when it was seen before.
count-uniq_from :
    (u : Text) (seen ts : List Text)
    → count (text_eq u) (uniq_from seen ts) + one (any (text_eq u) seen) ≤ 1
unfolding count uniq_from
count-uniq_from u seen [] = ground arith
count-uniq_from u seen (t ∷ ts) =
    let rest = count-uniq_from u (t ∷ seen) ts in
    elim (Bool-cases (text_eq u t)) [
      | inl e ↦
          let same = ap (λ z. any (text_eq z) seen) (text_eq-eq u t e) in
          elim (Bool-cases (any (text_eq t) seen)) [
            | inl old ↦ rw (old, same ∙ old) (omega (arith, rw e at rest))
            | inr new ↦ rw (new, e, same ∙ new) (omega (arith, rw e at rest))
          ]
      | inr e ↦ elim (Bool-cases (any (text_eq t) seen)) [
        | inl old ↦ rw old (omega (arith, rw e at rest))
        | inr new ↦ rw (new, e) (omega (arith, rw e at rest))
      ]
    ]

-- `uniq` loses no element.
any-uniq_from :
    (u : Text) (seen ts : List Text)
    → (any (text_eq u) seen || any (text_eq u) (uniq_from seen ts))
      ≡ (any (text_eq u) seen || any (text_eq u) ts)
unfolding uniq_from
any-uniq_from u seen [] = refl
any-uniq_from u seen (t ∷ ts) =
    let rest = any-uniq_from u (t ∷ seen) ts in
    elim (Bool-cases (text_eq u t)) [
      | inl e ↦
          let same = ap (λ z. any (text_eq z) seen) (text_eq-eq u t e) in
          elim (Bool-cases (any (text_eq t) seen)) [
            | inl old ↦ rw (same ∙ old) refl
            | inr new ↦ rw (new, e, same ∙ new) refl
          ]
      | inr e ↦ elim (Bool-cases (any (text_eq t) seen)) [
        | inl old ↦ rw (old, e) (rw e at rest)
        | inr new ↦ rw (new, e) (rw e at rest)
      ]
    ]

abbrev IsResolved : List Text → List Text → Text → Type 0
IsResolved all urls default_node = (urls ≡ uniq_from [] all) × (first_of all ≡ some default_node)

done_parts :
    (xs ys : List Text) (a b : Text) (s s' : RestUrls)
    → ◌≡◌ {A = Outcome RestUrls (List Text × Text)} (done (xs, a) s) (done (ys, b) s')
    → (xs ≡ ys) × (a ≡ b) × (s ≡ s')
done_parts xs ys a b s s' h = (cc, cc, cc)

with_default-done :
    (all urls k : List Text) (default_node : Text) (kept' : RestUrls)
    → with_default all (truthy (first_of all)) (some k) ≡ done (urls, default_node) kept'
    → IsResolved all urls default_node × (kept' ≡ some k)
unfolding throw pure
with_default-done [] urls k default_node kept' h = cc
with_default-done (t ∷ ts) urls k default_node kept' h = elim (Bool-cases (is_empty t)) [
  | inl e ↦ ground (arith, rw e at h)
  | inr e ↦
      let (same, first, kept) =
        done_parts (uniq_from [] (t ∷ ts)) urls t default_node (some k) kept' (rw e at h) in
      ((sym same, ap some first), sym kept)
]

first_of-uniq_from :
    (ts : List Text) (d : Text) → first_of ts ≡ some d → first_of (uniq_from [] ts) ≡ some d
unfolding uniq_from
first_of-uniq_from [] d h = h
first_of-uniq_from (t ∷ ts) d h = h

module _ (all urls k : List Text) (default_node u : Text) (kept' : RestUrls) where
  uniq_resolved :
      with_default all (truthy (first_of all)) (some k) ≡ done (urls, default_node) kept'
      → (count (text_eq u) urls ≤ 1)
        × (first_of urls ≡ some default_node)
        × (any (text_eq u) urls ≡ any (text_eq u) all)
        × (kept' ≡ some k)
  uniq_resolved h =
      let ((is_uniq, first), kept) = with_default-done all urls k default_node kept' h in
      rw is_uniq (
        omega (arith, count-uniq_from u [] all),
        first_of-uniq_from all default_node first,
        any-uniq_from u [] all,
        kept,
      )

-- Whatever the state and the answer of the statistics service, when `resolveRestUrlsForServices`
-- returns, no url is there twice, the default node is the first one, and the urls are those of the
-- services of the preset and the ones that `getRestUrls` then keeps for the next call.
pub resolve_rest_urls_for_services-uniq :
    (preset : RemotePreset) (answer later : Option (List StatisticsNode)) (nodes : List NamedNode)
    (services : List RestService) (kept kept' : RestUrls) (urls : List Text) (default_node u : Text)
    → resolve_rest_urls_for_services preset answer nodes services kept
      ≡ done (urls, default_node) kept'
    → (count (text_eq u) urls ≤ 1)
      × (first_of urls ≡ some default_node)
      × (any (text_eq u) urls
          ≡ any (text_eq u) (map (service_url nodes) services ++ or_else kept' []))
      × (get_rest_urls preset later kept' ≡ get_rest_urls preset answer kept)
unfolding resolve_rest_urls_for_services get_rest_urls gets pure ◌>>=◌
resolve_rest_urls_for_services-uniq preset answer later nodes services none kept' urls default_node
      u h =
    let asked = preset.known_rest_gateways ++ gateway_urls (statistics_nodes preset answer) in
    let (once, first, same, kept) =
      uniq_resolved (map (service_url nodes) services ++ asked) urls asked default_node u kept' h in
    rw kept (once, first, same, refl)
resolve_rest_urls_for_services-uniq preset answer later nodes services (some old) kept' urls
      default_node u h =
    let (once, first, same, kept) =
      uniq_resolved (map (service_url nodes) services ++ old) urls old default_node u kept' h in
    rw kept (once, first, same, refl)
