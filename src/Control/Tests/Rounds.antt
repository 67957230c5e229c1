-- ===== src/Control/Tests/Rounds.antt =====
-- Creating, requeueing and announcing jobs, and manifests, at concrete inputs.
use mc_prototype.Base.{ℕ, ◌≡◌, ◌≢◌, ◌⊎◌, refl, some, Bool, String, [], ◌∷◌, arith, eq_iff, true}
use mc_prototype.Dht.Json.Documents.{read_doc}
use mc_prototype.Task.Types.{Manifest, no_state, no_meta, no_manifest}
use mc_prototype.Task.Keys.{key_state, key_meta}
use mc_prototype.Lease.Table.{find_row}
use mc_prototype.Lease.Update.{new_row}
use mc_prototype.Lease.Store.{at}
use mc_prototype.Control.World.{World, job_id, reply}
use mc_prototype.Control.Requests.{Request, require_auth}
use mc_prototype.Control.Announce.{mem, enqueue}
use mc_prototype.Control.Jobs.{CreateTaskReq, create_task_handler}
use mc_prototype.Control.Index.Laws.{Indexed}
use mc_prototype.Control.Jobs.Laws.{Accepted, create_publishes}
use mc_prototype.Control.Tests.{n, c, c-AreFaithful, view, view-IsMap, open_env, request, world}
use mc_prototype.Lease.Types as Types
use mc_prototype.Task.Types.{queued}
use mc_prototype.Base.{pos, none, some, ◌⊎◌}
use mc_prototype.Control.Requests.{Request}
use mc_prototype.Lease.Store.{at}
use mc_prototype.Control.Tests.{request}

abbrev pub wanted : CreateTaskReq
wanted = record { id = "j2"; image = "alpine"; command = "true" ∷ [] }

abbrev pub create_request : Request CreateTaskReq
create_request = request "/api/tasks" "" (some wanted)

j2_named : ◌≢◌ {A = String} "j2" ""
j2_named = ground (arith, eq_iff "j2" "")

pub create-Accepted : Accepted open_env create_request wanted
unfolding require_auth
create-Accepted = record { auth = refl; post = refl; decoded = refl; named = j2_named }

create_publishes_example :
    let (w', response) = create_task_handler n "mc" c open_env (at 1) 2 5 3 create_request world in
    (response ≡ reply 201 (job_id "j2"))
    × (find_row "j2" w'.table
        ≡ some (record {
          id = "j2";
          image = wanted.image;
          command = wanted.command;
          status = Types.queued;
          created_at = 2;
          retry_count = 0;
          manifest_root_cid = none;
          manifest_providers = none;
          manifest_enc_meta = none;
          lease_agent = none;
          lease_expires_at = none;
          lease_token = 0;
          result_root_cid = none;
          artifacts = none;
          metrics = none;
        }))
    × (read_doc c.meta no_meta (view w'.node (key_meta "j2")) ≡ (
      record { id = "j2"; image = wanted.image; command = wanted.command; created_at = 2 },
      true,
    ))
    × (read_doc c.state no_state (view w'.node (key_state "j2")) ≡ (
      record {
        id = "j2";
        status = queued;
        version = pos 1;
        updated_at = 2;
        assigned_to = "";
        started_at = none;
        finished_at = none;
      },
      true,
    ))
    × Indexed n "mc" c view view-IsMap c-AreFaithful "j2" 5 w'.node
    × (mem "j2" w'.manager.dirty ≡ true)
unfolding find_row new_row
create_publishes_example =
    create_publishes n "mc" c view view-IsMap c-AreFaithful open_env 1 2 5 3 create_request wanted
      world create-Accepted refl

abbrev eager : World n
eager = record world { manager = enqueue "j1" world.manager }

abbrev clock : String → ℕ
clock id = 20

abbrev seeded : Manifest
seeded = record no_manifest {
  root_cid = "cid";
  transports = "QUIC-v1" ∷ [];
  providers = record { peer_id = "p"; addrs = "/ip4/1.2.3.4" ∷ []; relays = []; caps = [] } ∷ [];
}

abbrev any : String → Bool
any s = true
