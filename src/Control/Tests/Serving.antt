-- ===== src/Control/Tests/Serving.antt =====
-- The server at concrete events.
use mathlib.Core.List.{List, [], ◌∷◌}
use mc_prototype.Base.{none, ℕ, ◌*◌, ◌<◌, ◌≡◌, refl, ap, ◌∙◌, String, some, Bool, true, int64, All}
use mc_prototype.Lease.Types.{second}
use mc_prototype.Lease.Table.{Row, find_row, update_row}
use mc_prototype.Lease.Update.{new_row, claim_guard, claim_change, requeue_guard, requeue_change}
use mc_prototype.Lease.Store.Refusals.{alone}
use mc_prototype.Lease.History.{Call, creates, requeues, exec, claims, run}
use mc_prototype.Lease.Invariant.{Consistent}
use mc_prototype.Lease.Statements.{IsHistory-same, AreHistories}
use mc_prototype.Control.World.{World, reply, claimed}
use mc_prototype.Control.Requests.{ttl_or_default}
use mc_prototype.Control.Claims.{lease_doc, try_claim_handler}
use mc_prototype.Control.Claims.Laws.{claim_grants}
use mc_prototype.Control.Server.{Event, elsewhere, try_claims, announces, step, serve}
use mc_prototype.Control.Announce.Statements.{process_table}
use mc_prototype.Control.Server.Laws.{Admissible, serve-Consistent}
use mc_prototype.Control.Server.Tokens.{served_token_lt}
use mc_prototype.Task.Types.{Lease}
use mc_prototype.Task.Types.{TaskIndex, no_index}
use mc_prototype.Task.Keys.{key_index_shard}
use mc_prototype.Dht.Json.{Node, ns_key, store_local}
use mc_prototype.Dht.Json.Documents.{read_doc}
use mc_prototype.Control.Tests.{
  an_index, read_index, n, c, c-AreFaithful, view, view-IsMap, open_env, world, job, row_found,
  wants, claim_request, claim-Accepted,
}

abbrev accepts : String → Bool
accepts s = true

alone-AreHistories : (now : ℕ) → AreHistories (alone now)
alone-AreHistories now = record { others = IsHistory-same; more_others = IsHistory-same }

abbrev events : List (Event n)
events =
    try_claims (alone 100) 200 claim_request
    ∷ announces 300 (λ id. 300)
    ∷ elsewhere ((20 * second, requeues "j1") ∷ [])
    ∷ []

events-Admissible : All Admissible events
events-Admissible = (alone-AreHistories 100, (tt, ((tt, tt), tt)))

-- A server that starts with no job.
abbrev fresh : World n
fresh = record world { table = [] }

abbrev first_events : List (Event n)
first_events = elsewhere ((1, creates job) ∷ []) ∷ events

serve-Consistent_example :
    Consistent (serve n "mc" c open_env accepts accepts first_events fresh).table
serve-Consistent_example =
    serve-Consistent n "mc" c open_env accepts accepts first_events fresh
      ((refl, tt), events-Admissible) (λ j r h. unfold find_row in cc)

abbrev claimed_world : World n
claimed_world = (try_claim_handler n "mc" c open_env (alone 100) 200 claim_request world).0

-- The lease runs out and the job is requeued, elsewhere.
abbrev meanwhile : List (Event n)
meanwhile = announces 300 (λ id. 300) ∷ elsewhere ((20 * second, requeues "j1") ∷ []) ∷ []

abbrev later_world : World n
later_world = serve n "mc" c open_env accepts accepts meanwhile claimed_world

abbrev first_doc : Lease
first_doc = lease_doc "a" (record { agent_id = "a"; expire_at = 15000000100; fencing_token = 1 })

abbrev second_doc : Lease
second_doc = lease_doc "a" (record { agent_id = "a"; expire_at = 45000000000; fencing_token = 2 })

first_granted :
    (try_claim_handler n "mc" c open_env (alone 100) 200 claim_request world).1
    ≡ reply 200 (claimed first_doc)
unfolding new_row claim_guard ttl_or_default lease_doc
first_granted =
    (claim_grants n "mc" c view view-IsMap c-AreFaithful open_env (alone 100) 100 200 claim_request
      "j1" wants world (new_row job) claim-Accepted refl row_found refl).0

abbrev requeued_row : Row
requeued_row = requeue_change (claim_change 100 "a" (15 * second) (new_row job))

abbrev out : List (ℕ × Call)
out = (20 * second, requeues "j1") ∷ []

claimed_table : claimed_world.table ≡ exec 100 (claims "j1" "a" (15 * second)) world.table
unfolding new_row claim_guard ttl_or_default lease_doc
claimed_table =
    (claim_grants n "mc" c view view-IsMap c-AreFaithful open_env (alone 100) 100 200 claim_request
      "j1" wants world (new_row job) claim-Accepted refl row_found refl).1

out_found :
    find_row "j1" (run out (exec 100 (claims "j1" "a" (15 * second)) world.table))
    ≡ some requeued_row
unfolding run exec find_row new_row claim_guard claim_change requeue_guard requeue_change update_row
out_found = refl

later_found : find_row "j1" later_world.table ≡ some requeued_row
unfolding serve step
later_found =
    rw (process_table n "mc" c open_env 300 (λ id. 300) claimed_world)
      (ap (λ t. find_row "j1" (run out t)) claimed_table ∙ out_found)

second_granted :
    (try_claim_handler n "mc" c open_env (alone (30 * second)) 400 claim_request later_world).1
    ≡ reply 200 (claimed second_doc)
unfolding new_row claim_guard ttl_or_default claim_change requeue_change lease_doc
second_granted =
    (claim_grants n "mc" c view view-IsMap c-AreFaithful open_env (alone (30 * second))
      (30 * second) 400 claim_request "j1" wants later_world requeued_row claim-Accepted refl
      later_found refl).0

served_token_lt_example :
    (k : ℕ) × (k' : ℕ) × (first_doc.version ≡ int64 k) × (second_doc.version ≡ int64 k') × (k < k')
served_token_lt_example =
    served_token_lt n "mc" c open_env accepts accepts (alone 100) (alone (30 * second)) 200 400
      claim_request claim_request "j1" wants wants world later_world meanwhile first_doc second_doc
      claim-Accepted claim-Accepted (tt, ((tt, tt), tt)) first_granted refl second_granted

abbrev indexed : TaskIndex
indexed = record no_index { ids = "j0" ∷ "j1" ∷ [] }

abbrev listing : Node n
listing = record {
  net = store_local (λ k. none) (ns_key "mc" (key_index_shard "mc" 3)) (an_index indexed);
  local = λ k. none;
}

indexed_there : read_doc c.index no_index (view listing (key_index_shard "mc" 3)) ≡ (indexed, true)
unfolding ns_key key_index_shard read_index
indexed_there = refl
