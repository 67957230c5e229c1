-- ===== src/Agent/Tests/Waits.antt =====
-- The wait for a manifest at a concrete claim.
use mathlib.Core.List.{List, [], ◌∷◌}
use mc_prototype.Base.{ℕ, ◌<◌, ◌≡◌, refl, none, arith}
use mc_prototype.Lease.Types
use mc_prototype.Lease.Types.{ok, err, bad_token}
use mc_prototype.Lease.Table.{Row, Table, find_row}
use mc_prototype.Lease.Update.{new_row, claim_change, after_seconds}
use mc_prototype.Lease.Store.{at, heartbeat, set_status_queued}
use mc_prototype.Lease.History.{requeues, exec}
use mc_prototype.Agent.Client.{Answer, failed}
use mc_prototype.Agent.Waiting.{ready_manifest, wait_for_manifest}
use mc_prototype.Agent.Waiting.Laws.{late_first_heartbeat}
use mc_prototype.Base.{pos}
use mc_prototype.Agent.Client.{read_lease, claim_request}
use mc_prototype.Agent.Execution.{Action, claimed, waited, beating, base_url, on_candidate}
use mc_prototype.Agent.Tests.Work.{n, manifests, metas, cfg, outside, candidate, files, node, lease}

abbrev job : Types.DbJob
job = record {
  id = "j1";
  image = "alpine";
  command = [];
  status = Types.queued;
  created_at = 7;
  retry_count = 0;
}

abbrev claimed_row : Row
claimed_row = claim_change 100 "a" 15000000000 (new_row job)

abbrev table : Table
table = claimed_row ∷ []

-- Two polls that the server does not answer, one before and one after the deadline.
abbrev polls : List (Answer × ℕ)
polls = (failed "refused", 700) ∷ (failed "refused", 15000000500) ∷ []

late_first_heartbeat_example :
    let t' = exec 15000000700 (requeues "j1") table in
    ((rest : List Action) × ((on_candidate n "mc" manifests metas cfg outside candidate files
          node).2
        ≡ claimed (base_url cfg candidate) (claim_request "secret" "j1" "a" cfg.ttl)
          ∷ waited "http://control"
          ∷ beating (pos 4)
          ∷ rest))
    × (after_seconds 100 15000000000 < 15000000500)
    × (set_status_queued (at 15000000700) "j1" table ≡ (t', ok tt))
    × (heartbeat (at 20000000500) "j1" "a" claimed_row.lease_token 15000000000 t'
        ≡ (t', err bad_token))
unfolding find_row claim_change new_row wait_for_manifest ready_manifest read_lease
late_first_heartbeat_example =
    late_first_heartbeat n "mc" manifests metas cfg outside candidate files node lease 100 200 polls
      none 15000000500 15000000700 20000000500 "j1" "a" 15000000000 table (new_row job) refl refl
      (omega arith) (omega arith) (refl, (refl, tt)) refl (omega arith)
