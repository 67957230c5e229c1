-- ===== src/Control/Tests/Discovered.antt =====
-- Announcements, the server's start and the agents' discovery at concrete inputs.
use mathlib.Core.List.{List, [], ◌∷◌, Mem}
use mc_prototype.Base.{
  ℕ, ◌≡◌, ◌≢◌, ◌+◌, refl, subst, String, Option, none, some, Bool, true, arith, eq_iff,
}
use mc_prototype.Dht.Network.{Codec}
use mc_prototype.Dht.Samples.{Content, blank, foreign, document, codec}
use mc_prototype.Task.Keys.{key_state}
use mc_prototype.Lease.Update.{new_row}
use mc_prototype.Lease.Store.{Turn, at}
use mc_prototype.Control.World.{World}
use mc_prototype.Control.Announce.{is_due, enqueue, process, announce_ttl}
use mc_prototype.Control.Announce.Rounds.{Advertised, providers_at}
use mc_prototype.Control.Index.Laws.{IsReadable}
use mc_prototype.Control.Jobs.{create_task_handler}
use mc_prototype.Control.Main.{
  Wake, tick, triggered, enqueues, run_manager, new_pg_store, Flags, serving, control_main,
}
use mc_prototype.Control.Main.Wakes.{
  Spaced, announcements, announcements-Spaced, Attended, run_manager-Attended,
  enqueued_readvertised,
}
use mc_prototype.Agent.Discovery.{ManifestAd, no_manifest_ad, discover_tick}
use mc_prototype.Agent.Discovery.Announced.{ReadsMirrors, mirrored}
use mc_prototype.Agent.Discovery.Created.{offer_of, created_job_discovered}
use mc_prototype.Agent.Discovery.Restarted.{restarted, restarted_job_discovered}
use mc_prototype.Control.Tests.{
  Doc, empty_object, a_mirror, n, c, c-AreFaithful, view, view-IsMap, open_env, world, job,
  row_found,
}
use mc_prototype.Control.Tests.Rounds.{wanted, create_request, create-Accepted}
use mc_prototype.Control.Create.{create_flagged}
use mc_prototype.Control.Index.{add_to_index}
use mc_prototype.Control.Index.Laws.{Listed, add_to_index-Listed}
use mc_prototype.Control.Tests.{held, held_row, held_found}
use mc_prototype.Lease.Table.{find_row}
use mc_prototype.Lease.Types.{ok}
use mc_prototype.Lease.Update.{after_seconds, claim_change}
use mc_prototype.Lease.Store.{try_claim}
use mc_prototype.Lease.Store.Refusals.{alone}
use mc_prototype.Lease.History.{claims, exec}
use mc_prototype.Agent.Discovery.{list_from_index}
use mc_prototype.Agent.Discovery.Flagged.{flagged_jobs_unlisted}
use mc_prototype.Agent.Discovery.Requeued.{recovered, lost_job_recovered}
use mc_prototype.Lease.Types.{queued}

read_mirror_ad : Doc → Content ManifestAd
read_mirror_ad empty_object = blank
read_mirror_ad (a_mirror m) = document (mirrored m)
read_mirror_ad _ = foreign

abbrev mirrors : Codec Doc ManifestAd
mirrors = codec (λ ad. a_mirror (record { providers = ad.providers; exp = ad.exp })) read_mirror_ad

reads_mirrors : ReadsMirrors c mirrors
unfolding read_mirror_ad
reads_mirrors = record {
  reads = λ mir b e.
      subst (λ (d : Doc). mirrors.unmarshal d no_manifest_ad ≡ (mirrored mir, true))
        (let same : a_mirror mir ≡ b = ground (arith, e) in same) refl;
}

empty-IsReadable : (shard : ℕ) → IsReadable n "mc" c view view-IsMap c-AreFaithful shard world.node
empty-IsReadable shard b e = cc

abbrev clock : String → ℕ
clock id = 20

abbrev agent_clock : String → ℕ
agent_clock id = 30

abbrev unseen : String → Option ℕ
unseen id = none

abbrev created : World n
created = (create_task_handler n "mc" c open_env (at 1) 2 5 3 create_request world).0

created_job_discovered_example :
    Mem
      (offer_of open_env "j2"
        (providers_at n "mc" c open_env view view-IsMap c-AreFaithful "j2" world.node))
      (discover_tick n "mc" c.state c.ad mirrors c.index agent_clock agent_clock unseen
        (process n "mc" c open_env 10 clock created).node).2
unfolding is_due
created_job_discovered_example =
    created_job_discovered n "mc" c open_env view view-IsMap c-AreFaithful mirrors reads_mirrors 1 2
      5 3 wanted create_request world 10 clock agent_clock agent_clock
      (process n "mc" c open_env 10 clock created).node unseen create-Accepted (omega arith)
      (empty-IsReadable 5) refl (λ j. refl) refl (omega arith)

abbrev accepts : String → Bool
accepts dsn = true

abbrev no_flags : Flags
no_flags = record { create = ""; image = "alpine"; cmd = "echo" }

abbrev shards : String → ℕ
shards id = 3

abbrev turns : String → Turn
turns id = at 5

abbrev begun : World n
begun =
    restarted n "mc" c open_env view view-IsMap c-AreFaithful mirrors reads_mirrors 4 clock shards
      world.table world.node

dsn_given : ◌≢◌ {A = String} "dsn" ""
dsn_given = ground (arith, eq_iff "dsn" "")

j1_named : ◌≢◌ {A = String} "j1" ""
j1_named = ground (arith, eq_iff "j1" "")

restarted_job_discovered_example :
    (control_main n "mc" c accepts accepts "dsn"
        (some world.node)
        world.table
        (at 4, clock, shards)
        turns
        clock
        no_flags
      ≡ serving begun)
    × Mem
        (offer_of open_env "j1"
          (providers_at n "mc" c open_env view view-IsMap c-AreFaithful "j1" world.node))
        (discover_tick n "mc" c.state c.ad mirrors c.index agent_clock agent_clock unseen
          (process n "mc" c open_env 10 clock begun).node).2
unfolding new_pg_store new_row
restarted_job_discovered_example =
    restarted_job_discovered n "mc" c open_env view view-IsMap c-AreFaithful mirrors reads_mirrors
      accepts accepts "dsn" world.node world.table 4 clock shards turns clock no_flags "j1"
      (new_row job) 10 clock agent_clock agent_clock (process n "mc" c open_env 10 clock begun).node
      unseen dsn_given refl refl j1_named row_found refl (omega arith) (empty-IsReadable 3)
      (λ j. refl) refl (omega arith)

abbrev wakes : List Wake
wakes = enqueues "j1" ∷ triggered 5 clock ∷ tick 3000000030 (λ id. 3000000040) ∷ []

announcements-Spaced_example : Spaced 0 (announcements n "mc" c open_env "j1" wakes world)
announcements-Spaced_example =
    announcements-Spaced n "mc" c open_env wakes "j1" world
      (tt, ((omega arith, omega arith), ((omega arith, omega arith), tt)))

run_manager-Attended_example :
    Attended n "mc" c open_env (run_manager n "mc" c open_env wakes world).manager
run_manager-Attended_example =
    run_manager-Attended n "mc" c open_env wakes world
      (λ id. (tt, ((omega arith, omega arith), ((omega arith, omega arith), tt)))) tt

abbrev asked : World n
asked = record world { manager = enqueue "j1" world.manager }

abbrev pending : List Wake
pending = enqueues "j2" ∷ []

enqueued_readvertised_example :
    let w' = run_manager n "mc" c open_env pending asked in
    Advertised n "mc" c open_env view view-IsMap c-AreFaithful "j1"
      (20 + announce_ttl)
      (providers_at n "mc" c open_env view view-IsMap c-AreFaithful "j1" w'.node)
      (process n "mc" c open_env 10 clock w').node
    × (view (process n "mc" c open_env 10 clock w').node (key_state "j1")
        ≡ view w'.node (key_state "j1"))
unfolding enqueue run_manager is_due
enqueued_readvertised_example =
    enqueued_readvertised n "mc" c open_env view view-IsMap c-AreFaithful pending asked "j1" 10
      clock refl refl

-- A job of the flag -create is listed neither before nor after.
abbrev flagged : World n
flagged = create_flagged n "mc" c turns clock "j8, j9" "alpine" "echo,hello" world

flagged_jobs_unlisted_example :
    (list_from_index n "mc" c.index (process n "mc" c open_env 10 clock flagged).node).1
    ≡ (list_from_index n "mc" c.index world.node).1
flagged_jobs_unlisted_example =
    flagged_jobs_unlisted n "mc" c open_env view view-IsMap c-AreFaithful turns clock "j8, j9"
      "alpine" "echo,hello" world 10 clock (process n "mc" c open_env 10 clock flagged).node
      (λ b. refl) (λ j. refl)

-- "j1" is held by "a", and its lease ends before the tick.
abbrev lost : World n
lost = record held { node = (add_to_index n "mc" c 3 4 "j1" world.node).0 }

j1-Listed : Listed n "mc" c view view-IsMap c-AreFaithful "j1" 3 lost.node
j1-Listed =
    add_to_index-Listed n "mc" c view view-IsMap c-AreFaithful 3 4 "j1" world.node
      (empty-IsReadable 3)

abbrev at_nineteen : String → ℕ
at_nineteen id = 19000000000

lost_job_recovered_example :
    let w' =
      recovered n "mc" c open_env view view-IsMap c-AreFaithful mirrors reads_mirrors 19000000000
        at_nineteen 7 10 clock lost in
    (find_row "j1" w'.table
      ≡ some (record held_row {
        status = queued;
        lease_agent = none;
        lease_expires_at = none;
        retry_count = held_row.retry_count + 1;
      }))
    × Mem
        (offer_of open_env "j1"
          (providers_at n "mc" c open_env view view-IsMap c-AreFaithful "j1" lost.node))
        (discover_tick n "mc" c.state c.ad mirrors c.index agent_clock agent_clock unseen w'.node).2
    × (try_claim (alone 20000000000) "j1" "b" 15000000000 w'.table ≡ (
      exec 20000000000 (claims "j1" "b" 15000000000) w'.table,
      ok (record {
        agent_id = "b";
        expire_at = after_seconds 20000000000 15000000000;
        fencing_token = held_row.lease_token + 1;
      }),
    ))
unfolding is_due claim_change new_row
lost_job_recovered_example =
    lost_job_recovered n "mc" c open_env view view-IsMap c-AreFaithful mirrors reads_mirrors
      19000000000 at_nineteen 7 "j1" held_row (after_seconds 100 15000000000) 3 10 clock agent_clock
      agent_clock lost
      (recovered n "mc" c open_env view view-IsMap c-AreFaithful mirrors reads_mirrors 19000000000
        at_nineteen 7 10 clock lost).node
      unseen "b" 15000000000 20000000000 j1_named held_found refl refl (omega arith) (omega arith)
      (omega arith) j1-Listed refl (λ j. refl) refl (omega arith)
