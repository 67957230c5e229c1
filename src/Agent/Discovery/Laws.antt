-- ===== src/Agent/Discovery/Laws.antt =====
-- The agent's filter on providers against the control server's check of manifests.
use mc_prototype.Base.{
  All, ap, ◌≢◌, str_ne, All, ap, ◌≡◌, refl, String, List, [], ◌∷◌, none, Bool, Bool-cases, inl, inr,
  true, false, arith,
}
use mc_prototype.Task.Types.{Manifest, Provider}
use mc_prototype.Control.Manifests.{validate_providers, validate_manifest, is_noop}
use mc_prototype.Control.Manifests.Laws.{IsServed, IsDialable, validate_provider_lem, is_noop_lem}
use mc_prototype.Agent.Discovery.{has_url, no_addrs, is_usable, filter_providers}

some_addrs : (l : List String) → l ≢ [] → no_addrs l ≡ false
some_addrs [] h = absurd (h refl)
some_addrs (a ∷ others) h = refl

module _ (decodes_peer parses_addr : String → Bool) where
  dialable_no_url :
      (l : List String) → All (IsDialable decodes_peer parses_addr) l → has_url l ≡ false
  unfolding has_url
  dialable_no_url [] h = refl
  dialable_no_url (a ∷ others) h =
      ground (arith, h.0.no_http, h.0.no_https, dialable_no_url others h.1)

  served_usable : (p : Provider) → IsServed decodes_peer parses_addr p → is_usable p ≡ true
  unfolding is_usable
  served_usable p s = ground (
    arith,
    str_ne p.peer_id "" s.present,
    some_addrs p.addrs s.listed,
    dialable_no_url p.addrs s.dialable,
  )

  all_kept :
      (ps : List Provider)
      → validate_providers decodes_peer parses_addr ps ≡ none
      → filter_providers ps ≡ ps
  unfolding filter_providers validate_providers
  all_kept [] h = refl
  all_kept (p ∷ ps) h =
      rw (served_usable p (validate_provider_lem decodes_peer parses_addr p (ground arith)))
        (ap (λ l. p ∷ l) (all_kept ps (ground arith)))

  -- The providers of a manifest that the control server accepts all pass the agent's filter.
  pub validated_providers_kept :
      (man : Manifest)
      → validate_manifest decodes_peer parses_addr man ≡ none
      → filter_providers man.providers ≡ man.providers
  unfolding validate_manifest
  validated_providers_kept man h = elim (Bool-cases (is_noop man)) [
    | inl e ↦ rw (is_noop_lem man e).1 (unfold filter_providers in refl)
    | inr e ↦ all_kept man.providers (ground arith)
  ]
