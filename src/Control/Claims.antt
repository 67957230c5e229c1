-- ===== src/Control/Claims.antt =====
-- tryClaimHandler of cmd/control/control_http.go.
pub mod Laws
pub mod Statements
use mc_prototype.Base.{ℕ, String, Option, none, some, not, str_eq, ℤ, int64, suc64, if◌then◌else◌}
use mc_prototype.Dht.Network.{Network}
use mc_prototype.Dht.Json.{Node, put_json, get_json}
use mc_prototype.Task.Types.{Lease, TaskState, assigned, no_state}
use mc_prototype.Task.Keys.{key_state, key_lease}
use mc_prototype.Lease.Types.{
  job_not_found, no_manifest, lease_conflict, bad_token, database, Result, ok, err,
}
use mc_prototype.Lease.Types
use mc_prototype.Lease.Store.{ClaimTurns, try_claim}
use mc_prototype.Control.World.{
  Codecs, World, claim_refused, text, claimed, Response, reply, panicked,
}
use mc_prototype.Control.Requests.{
  Env, Request, require_auth, path_parts, four_parts, ttl_or_default,
}

pub record TryClaimIn : Type 0 where
  pub agent_id : String
  pub ttl_sec : ℤ

-- The state document of an assigned job.
unfoldable pub assign_state : String → String → ℕ → TaskState → TaskState
assign_state id agent now st = record st {
  id = id;
  status = assigned;
  assigned_to = agent;
  updated_at = now;
  started_at = elim st.started_at [ none ↦ some now | some t ↦ some t ];
  version = suc64 st.version;
}

unfoldable pub lease_doc : String → Types.Lease → Lease
lease_doc agent l = record {
  owner = agent;
  nonce = "";
  expires = l.expire_at;
  version = int64 l.fencing_token;
}

module _ (n : Network) (ns : String) (c : Codecs n.Bytes) where
  assign_mirror : String → String → ℕ → Node n → Node n
  unfolding assign_state
  assign_mirror id agent now nd =
      let (nd1, st, _) = get_json n ns c.state nd (key_state id) no_state in
      (put_json n ns c.state nd1 (key_state id) (assign_state id agent now st)).0

  -- The end of the handler; claimedLease is nil where the claim failed with ErrNoManifest.
  grant : String → String → ℕ → World n → Option Types.Lease → World n × Response
  unfolding assign_mirror lease_doc
  grant id agent now w none = (record w { node = assign_mirror id agent now w.node }, panicked)
  grant id agent now w (some l) =
      let nd = assign_mirror id agent now w.node in
      (
        record w { node = (put_json n ns c.lease nd (key_lease id) (lease_doc agent l)).0 },
        reply 200 (claimed (lease_doc agent l)),
      )

  pub on_claim : String → String → ℕ → World n → Result Types.Lease → World n × Response
  unfolding grant
  on_claim id agent now w (ok l) = grant id agent now w (some l)
  on_claim id agent now w (err lease_conflict) = (w, reply 200 claim_refused)
  on_claim id agent now w (err job_not_found) = (w, reply 404 (text "not found"))
  on_claim id agent now w (err no_manifest) = grant id agent now w none
  on_claim id agent now w (err bad_token) = (w, reply 500 (text "store error"))
  on_claim id agent now w (err database) = (w, reply 500 (text "store error"))

  claim_job : ClaimTurns → ℕ → World n → String → TryClaimIn → World n × Response
  unfolding on_claim
  claim_job turns now w id i =
      if str_eq i.agent_id ""
      then (w, reply 400 (text "agent_id required"))
      else (let (t, r) = try_claim turns id i.agent_id (ttl_or_default i.ttl_sec) w.table in
          on_claim id i.agent_id now (record w { table = t }) r)

  claim_body : ClaimTurns → ℕ → World n → Option TryClaimIn → Option String → World n × Response
  unfolding claim_job
  claim_body turns now w body none = (w, reply 400 (text "bad path"))
  claim_body turns now w none (some id) = (w, reply 400 (text "bad json"))
  claim_body turns now w (some i) (some id) = claim_job turns now w id i

  unfoldable pub try_claim_handler :
      Env → ClaimTurns → ℕ → Request TryClaimIn → World n → World n × Response
  unfolding claim_body
  try_claim_handler env turns now r w =
      if not (require_auth env r)
      then (w, reply 401 (text "unauthorized"))
      else claim_body turns now w r.body (four_parts "api" "tasks" "try-claim" (path_parts r))
