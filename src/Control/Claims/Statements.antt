-- ===== src/Control/Claims/Statements.antt =====
-- The statements that tryClaimHandler runs on the table.
use mc_prototype.Base.{
  ℕ, String, Option, none, some, Bool-cases, inl, inr, str_eq, ◌≡◌, refl, sym, ap, ◌∙◌, arith,
}
use mc_prototype.Dht.Network.{Network}
use mc_prototype.Lease.Types.{
  Lease, Result, ok, err, job_not_found, no_manifest, lease_conflict, bad_token, database,
}
use mc_prototype.Lease.Store.{ClaimTurns, try_claim}
use mc_prototype.Lease.Table.{Table}
use mc_prototype.Lease.Statements.{IsHistory, IsHistory-same, AreHistories, try_claim-IsHistory}
use mc_prototype.Task.Types
use mc_prototype.Control.World.{Codecs, World, Response, reply, claimed}
use mc_prototype.Control.Claims.Laws.{Accepted, Accepted-runs}
use mc_prototype.Control.Requests.{
  Env, Request, require_auth, path_parts, four_parts, ttl_or_default,
}
use mc_prototype.Control.Claims.{
  TryClaimIn, grant, lease_doc, on_claim, claim_job, claim_body, try_claim_handler,
}

module _ (n : Network) (ns : String) (c : Codecs n.Bytes) where
  on_claim-IsHistory :
      (id agent : String) (now : ℕ) (t : Table) (w : World n) (r : Result Lease)
      → IsHistory t w.table
      → IsHistory t (on_claim n ns c id agent now w r).0.table
  unfolding on_claim grant
  on_claim-IsHistory id agent now t w (ok l) h = h
  on_claim-IsHistory id agent now t w (err lease_conflict) h = h
  on_claim-IsHistory id agent now t w (err job_not_found) h = h
  on_claim-IsHistory id agent now t w (err no_manifest) h = h
  on_claim-IsHistory id agent now t w (err bad_token) h = h
  on_claim-IsHistory id agent now t w (err database) h = h

  claim_job-IsHistory :
      (turns : ClaimTurns) (now : ℕ) (w : World n) (id : String) (i : TryClaimIn)
      → AreHistories turns
      → IsHistory w.table (claim_job n ns c turns now w id i).0.table
  unfolding claim_job
  claim_job-IsHistory turns now w id i h = elim (Bool-cases (str_eq i.agent_id "")) [
    | inl e ↦ rw e (IsHistory-same w.table)
    | inr e ↦
        let ttl = ttl_or_default i.ttl_sec in
        let (t, r) = try_claim turns id i.agent_id ttl w.table in
        rw e (
          on_claim-IsHistory id i.agent_id now w.table (record w { table = t }) r
            (try_claim-IsHistory turns id i.agent_id ttl w.table h))
  ]

  claim_body-IsHistory :
      (turns : ClaimTurns) (now : ℕ) (w : World n) (body : Option TryClaimIn) (id : Option String)
      → AreHistories turns
      → IsHistory w.table (claim_body n ns c turns now w body id).0.table
  unfolding claim_body
  claim_body-IsHistory turns now w none none h = IsHistory-same w.table
  claim_body-IsHistory turns now w (some i) none h = IsHistory-same w.table
  claim_body-IsHistory turns now w none (some id) h = IsHistory-same w.table
  claim_body-IsHistory turns now w (some i) (some id) h = claim_job-IsHistory turns now w id i h

  pub try_claim_handler-IsHistory :
      (env : Env) (turns : ClaimTurns) (now : ℕ) (r : Request TryClaimIn) (w : World n)
      → AreHistories turns
      → IsHistory w.table (try_claim_handler n ns c env turns now r w).0.table
  unfolding try_claim_handler
  try_claim_handler-IsHistory env turns now r w h = elim (Bool-cases (require_auth env r)) [
    | inl e ↦ rw e (
        claim_body-IsHistory turns now w r.body
          (four_parts "api" "tasks" "try-claim" (path_parts r)) h)
    | inr e ↦ rw e (IsHistory-same w.table)
  ]

  on_claim_claimed :
      (id agent : String) (now : ℕ) (w : World n) (r : Result Lease) (d : Types.Lease)
      → (on_claim n ns c id agent now w r).1 ≡ reply 200 (claimed d)
      → (l : Lease) × (r ≡ ok l)
        × (d ≡ lease_doc agent l)
        × ((on_claim n ns c id agent now w r).0.table ≡ w.table)
  unfolding on_claim grant
  on_claim_claimed id agent now w (ok l) d h = (l, refl, ground (arith, h), refl)
  on_claim_claimed id agent now w (err lease_conflict) d h = ground (arith, h)
  on_claim_claimed id agent now w (err job_not_found) d h = ground (arith, h)
  on_claim_claimed id agent now w (err no_manifest) d h = ground (arith, h)
  on_claim_claimed id agent now w (err bad_token) d h = ground (arith, h)
  on_claim_claimed id agent now w (err database) d h = ground (arith, h)

  -- A reply with a lease comes of a claim that succeeded.
  pub try_claim_handler_claimed :
      (env : Env) (turns : ClaimTurns) (now : ℕ) (r : Request TryClaimIn) (id : String)
      (i : TryClaimIn) (w : World n) (d : Types.Lease)
      → Accepted env r id i
      → (try_claim_handler n ns c env turns now r w).1 ≡ reply 200 (claimed d)
      → (l : Lease) × (try_claim turns id i.agent_id (ttl_or_default i.ttl_sec) w.table
          ≡ ((try_claim_handler n ns c env turns now r w).0.table, ok l))
        × (d ≡ lease_doc i.agent_id l)
  try_claim_handler_claimed env turns now r id i w d a h =
      let (t, x) = try_claim turns id i.agent_id (ttl_or_default i.ttl_sec) w.table in
      let runs = Accepted-runs n ns c env turns now r id i w t x a refl in
      let (l, e, same, kept) =
        on_claim_claimed id i.agent_id now (record w { table = t }) x d
          (sym (ap (λ (p : World n × Response). p.1) runs) ∙ h) in
      let table = ap (λ (p : World n × Response). p.0.table) runs ∙ kept in
      (l, ground (arith, e, table), same)
