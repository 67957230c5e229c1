-- ===== src/Control/Tests/Cycle.antt =====
-- A job's life at a concrete job and agent.
use mc_prototype.Base.{
  ◌≡◌, ◌≢◌, ℕ, String, List, [], ◌∷◌, refl, pos, some, none, arith, eq_iff, int64, ℤ, inr, ◌*◌,
}
use mc_prototype.Text.Paths.{is_segment}
use mc_prototype.Lease.Types.{second}
use mc_prototype.Lease.Table.{Row, find_row}
use mc_prototype.Lease.Update.{new_row, claim_guard, after_seconds}
use mc_prototype.Lease.Store.{at}
use mc_prototype.Lease.Store.Refusals.{alone}
use mc_prototype.Lease.History.{Call, run, claims, beats, finishes}
use mc_prototype.Control.World.{World, reply, ok_true}
use mc_prototype.Control.Requests.{Env, ttl_or_default}
use mc_prototype.Control.Claims.{try_claim_handler}
use mc_prototype.Control.Heartbeats.{heartbeat_handler}
use mc_prototype.Control.Finishes.{FinishIn, outcome_of, finish_handler}
use mc_prototype.Agent.Client.{
  delivered, seconds_of, claim_request, heartbeat_request, finish_request, read_lease, finish_error,
  lease_header,
}
use mc_prototype.Agent.Client.Laws.{Trusted, header_token-lease_header}
use mc_prototype.Agent.Client.Cycle.{lease_cycle}
use mc_prototype.Control.Requests.{header_token}
use mc_prototype.Control.Routes
use mc_prototype.Control.Routes.{route}
use mc_prototype.Control.Routes.Laws.{agent_requests_routed, api_finish_refused}
use mc_prototype.Agent.Client.{release_request}
use mc_prototype.Control.World.{text}
use mc_prototype.Control.Requests.{Request, require_auth}
use mc_prototype.Control.Tests.{
  open_env, request, n, c, c-AreFaithful, view, view-IsMap, world, job, row_found, a_not_empty,
  finished,
}
use mc_prototype.Task.Types as Task
use mc_prototype.Base.{if◌then◌else◌, none}
use mc_prototype.Text.{lower_is}
use mc_prototype.Lease.Types.{succeeded, failed}
use mc_prototype.Text.Paths.{is_plain}

abbrev closed_env : Env
closed_env = record { disable_auth = ""; control_token = "secret"; public_url = ""; http_port = "" }

secret_not_empty : ◌≢◌ {A = String} "secret" ""
secret_not_empty = ground (arith, eq_iff "secret" "")

trusted : Trusted closed_env "secret"
trusted = record { same = refl; set = secret_not_empty }

abbrev ttl : ℤ
ttl = pos (15 * second)

abbrev claimed_world : World n
claimed_world =
    (try_claim_handler n "mc" c closed_env (alone 100) 200 (claim_request "secret" "j1" "a" ttl)
      world).0

-- Another agent tries to claim and to finish the job, and the holder extends its lease.
abbrev meanwhile : List (ℕ × Call)
meanwhile =
    (300, claims "j1" "b" (3600 * second))
    ∷ (400, finishes "j1" "b" 1 (outcome_of finished))
    ∷ (500, beats "j1" "a" 1 (30 * second))
    ∷ []

abbrev later : World n
later = record world { table = run meanwhile claimed_world.table }

b_not_a : ◌≢◌ {A = String} "b" "a"
b_not_a = ground (arith, eq_iff "b" "a")

lease_cycle_example :
    (l : Task.Lease) × (read_lease (
        delivered "EOF"
          (try_claim_handler n "mc" c closed_env
            (alone 100)
            200
            (claim_request "secret" "j1" "a" ttl)
            world).1)
      ≡ some l)
    × (l.owner ≡ "a")
    × (l.expires ≡ after_seconds 100 (ttl_or_default (seconds_of ttl)))
    × ((heartbeat_handler n "mc" c closed_env
          (at 600)
          700
          (heartbeat_request "secret" "j1" "a" "" ttl l.version)
          later).1
        ≡ reply 200 ok_true)
    × (let (w3, done) =
          finish_handler n "mc" c closed_env
            (at 600)
            700
            (finish_request "secret" "j1" "a" l.version finished)
            later in
        (finish_error (delivered "EOF" done) ≡ none)
        × ((r : Row) × (find_row "j1" w3.table ≡ some r)
            × (r.status ≡ (if lower_is finished.status "succeeded" then succeeded else failed))
            × (r.lease_agent ≡ none)
            × (r.lease_expires_at ≡ none)))
unfolding new_row claim_guard is_segment is_plain ttl_or_default seconds_of
lease_cycle_example =
    lease_cycle n "mc" c view view-IsMap c-AreFaithful closed_env "secret" "j1" "a" "EOF" ttl
      (alone 100) 100 200 world (new_row job) meanwhile later 600 700 "" finished trusted refl
      a_not_empty refl row_found refl (omega arith) refl
      (tt, (inr b_not_a, (inr (inr (omega arith)), tt)))

header_token-lease_header_example : header_token (lease_header (int64 15)) ≡ 15
header_token-lease_header_example = header_token-lease_header 15 (omega arith) (omega arith)

agent_requests_routed_example :
    let claim = claim_request "secret" "j1" "a" ttl in
    let beat = heartbeat_request "secret" "j1" "a" "" ttl (pos 1) in
    let leave = release_request "secret" "j1" "a" "" in
    let end = finish_request "secret" "j1" "a" (pos 1) finished in
    (route claim.method claim.path ≡ Routes.try_claim)
    × (route beat.method beat.path ≡ Routes.heartbeat)
    × (route leave.method leave.path ≡ Routes.release)
    × (route end.method end.path ≡ Routes.finish)
unfolding is_segment is_plain
agent_requests_routed_example = agent_requests_routed "secret" "j1" "a" "" ttl (pos 1) finished refl

abbrev misrouted : Request FinishIn
misrouted = request "/api/jobs/j1/finish" "1" (some finished)

api_finish_refused_example :
    (route misrouted.method misrouted.path ≡ Routes.finish)
    × (finish_handler n "mc" c open_env (at 500) 600 misrouted world
        ≡ (world, reply 400 (text "bad path")))
unfolding require_auth is_segment is_plain
api_finish_refused_example =
    api_finish_refused n "mc" c open_env (at 500) 600 misrouted "j1" world refl refl refl refl
