-- ===== src/Lease/Store/Refusals.antt =====
-- The refusals of TryClaim where no other session intervenes.
use mc_prototype.Base.{
  ℕ, ◌≡◌, ◌≢◌, ◌⊎◌, inl, inr, refl, ap, ◌∙◌, String, none, some, false, arith, eq_iff,
}
use mc_prototype.Lease.Types.{job_not_found, no_manifest, lease_conflict, err}
use mc_prototype.Lease.Table.{Row, Table, find_row}
use mc_prototype.Lease.Update.{claim_guard}
use mc_prototype.Lease.Store.{at, ClaimTurns, diagnose, try_claim}
use mc_prototype.Lease.Store.Claims.{try_claim_refused}

-- All three statements run at one instant, and nothing is committed in between.
abbrev pub alone : ℕ → ClaimTurns
alone s = record { update = at s; others = λ t. t; get = at s; more_others = λ t. t; reason = at s }

-- A row with no manifest: none was attached, or one with an empty root.
abbrev pub NoManifest : Row → Type 0
NoManifest r = (r.manifest_root_cid ≡ none) ⊎ (r.manifest_root_cid ≡ some "")

abbrev pub HasManifest : Row → String → Type 0
HasManifest r cid = (r.manifest_root_cid ≡ some cid) × (cid ≢ "")

module _ (s : ℕ) (id agent : String) (ttl : ℕ) (t : Table) where
  pub claim_absent :
      find_row id t ≡ none → try_claim (alone s) id agent ttl t ≡ (t, err job_not_found)
  claim_absent h =
      try_claim_refused s (alone s) id agent ttl t refl (rw h refl) ∙ ap (λ e. (t, err e)) why
    where
      why : diagnose (alone s) id t ≡ job_not_found
      why = unfold diagnose in ground (arith, h)

  pub claim_unready :
      {r : Row}
      → find_row id t ≡ some r
      → claim_guard s r ≡ false
      → NoManifest r
      → try_claim (alone s) id agent ttl t ≡ (t, err no_manifest)
  claim_unready {r} h g n =
      try_claim_refused s (alone s) id agent ttl t refl (rw (h, g) refl)
      ∙ ap (λ e. (t, err e)) (why n)
    where
      why : NoManifest r → diagnose (alone s) id t ≡ no_manifest
      why (inl e) = unfold diagnose in ground (arith, h)
      why (inr e) = unfold diagnose in ground (arith, h)

  pub claim_conflicts :
      {r : Row} {cid : String}
      → find_row id t ≡ some r
      → claim_guard s r ≡ false
      → HasManifest r cid
      → try_claim (alone s) id agent ttl t ≡ (t, err lease_conflict)
  claim_conflicts {r} {cid} h g n =
      try_claim_refused s (alone s) id agent ttl t refl (rw (h, g) refl) ∙ ap (λ e. (t, err e)) why
    where
      why : diagnose (alone s) id t ≡ lease_conflict
      why = unfold diagnose in ground (arith, h, n.0, n.1, eq_iff cid "")
