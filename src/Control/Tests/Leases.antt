-- ===== src/Control/Tests/Leases.antt =====
-- Heartbeats and releases at concrete requests.
use mc_prototype.Base.{◌+◌, ◌≡◌, ◌≢◌, refl, none, some, String, pos, arith, eq_iff, true, ◌*◌}
use mc_prototype.Dht.Json.{ns_key, store_local}
use mc_prototype.Dht.Json.Documents.{read_doc}
use mc_prototype.Task.Types
use mc_prototype.Task.Types.{TaskState, no_state, no_lease}
use mc_prototype.Task.Keys.{key_state, key_lease}
use mc_prototype.Text.{trim_slashes, split, trim_space, parse_uint}
use mc_prototype.Lease.Types.{second}
use mc_prototype.Lease.Table.{find_row}
use mc_prototype.Lease.Update.{new_row, claim_change, heartbeat_guard}
use mc_prototype.Lease.Store.{at}
use mc_prototype.Control.World.{World, ok_true, reply}
use mc_prototype.Control.Requests.{
  Request, require_auth, path_parts, ttl_or_default, heartbeat_token, header_token,
}
use mc_prototype.Control.Heartbeats.{HeartbeatIn, heartbeat_handler}
use mc_prototype.Control.Heartbeats.Laws.{Accepted, heartbeat_renews}
use mc_prototype.Control.Releases.{ReleaseIn, is_taken, release_handler}
use mc_prototype.Control.Releases.Laws.{release_reopens_mirror_only, foreign_release}
use mc_prototype.Control.Releases.Laws
use mc_prototype.Control.Tests.{
  a_lease, a_state, n, c, c-AreFaithful, view, view-IsMap, read_lease, read_state, open_env,
  request, held, held_row, held_found,
}
use mc_prototype.Base.{pos, suc64}
use mc_prototype.Lease.Types.{running}
use mc_prototype.Task.Types.{queued}
use mc_prototype.Lease.Update.{after_seconds}

abbrev beat : HeartbeatIn
beat = record { agent_id = "a"; nonce = "1"; ttl_sec = pos 30; lease_version = pos 0 }

abbrev beat_request : Request HeartbeatIn
beat_request = request "/api/tasks/j1/heartbeat" "" (some beat)

beat-Accepted : Accepted open_env beat_request "j1" beat 1
unfolding require_auth path_parts trim_slashes split heartbeat_token trim_space parse_uint
    header_token
beat-Accepted = record {
  auth = refl;
  parts = refl;
  decoded = refl;
  sent = refl;
  present = λ e. ground arith;
}

heartbeat_renews_example :
    let (w', response) = heartbeat_handler n "mc" c open_env (at 500) 600 beat_request held in
    (response ≡ reply 200 ok_true)
    × (find_row "j1" w'.table
        ≡ some (record held_row {
          lease_expires_at = some (after_seconds 500 (30 * second));
          status = running;
        }))
    × (read_doc c.lease no_lease (view w'.node (key_lease "j1"))
        ≡ (record { owner = "a"; nonce = ""; expires = 600 + 30 * second; version = pos 1 }, true))
unfolding claim_change new_row heartbeat_guard ttl_or_default
heartbeat_renews_example =
    heartbeat_renews n "mc" c view view-IsMap c-AreFaithful open_env 500 600 beat_request "j1" beat
      1 held held_row beat-Accepted held_found refl

abbrev mirror_lease : Types.Lease
mirror_lease = record { owner = "a"; nonce = ""; expires = 15000000100; version = pos 1 }

abbrev mirror_state : TaskState
mirror_state = record no_state {
  id = "j1";
  status = Types.assigned;
  assigned_to = "a";
  version = pos 2;
}

-- The job is leased to a, in the table and in the DHT.
abbrev mirrored : World n
mirrored = record held {
  node = record {
    net =
        store_local (store_local (λ k. none) (ns_key "mc" (key_state "j1")) (a_state mirror_state))
          (ns_key "mc" (key_lease "j1")) (a_lease mirror_lease);
    local = λ k. none;
  };
}

lease_there : read_doc c.lease no_lease (view mirrored.node (key_lease "j1")) ≡ (mirror_lease, true)
unfolding ns_key key_state key_lease read_lease
lease_there = refl

state_there : read_doc c.state no_state (view mirrored.node (key_state "j1")) ≡ (mirror_state, true)
unfolding ns_key key_state key_lease read_state
state_there = refl

abbrev leaves : ReleaseIn
leaves = record { agent_id = "a"; nonce = "" }

abbrev release_request : ReleaseIn → Request ReleaseIn
release_request i = request "/api/tasks/j1/release" "" (some i)

release-Accepted : (i : ReleaseIn) → Laws.Accepted open_env (release_request i) "j1" i
unfolding require_auth path_parts trim_slashes split
release-Accepted i = record { auth = refl; parts = refl; decoded = refl }

a_named : ◌≢◌ {A = String} "a" ""
a_named = ground (arith, eq_iff "a" "")

release_reopens_mirror_only_example :
    let (w', response) = release_handler n "mc" c open_env 900 (release_request leaves) mirrored in
    (response ≡ reply 200 ok_true)
    × (w'.table ≡ mirrored.table)
    × ((read_doc c.lease no_lease (view w'.node (key_lease "j1"))).0 ≡ no_lease)
    × (read_doc c.state no_state (view w'.node (key_state "j1")) ≡ (
      record mirror_state {
        status = queued;
        assigned_to = "";
        updated_at = 900;
        version = suc64 mirror_state.version;
      },
      true,
    ))
unfolding is_taken
release_reopens_mirror_only_example =
    release_reopens_mirror_only n "mc" c view view-IsMap c-AreFaithful open_env 900
      (release_request leaves) "j1" leaves mirrored mirror_lease mirror_state
      (release-Accepted leaves) lease_there refl refl a_named state_there refl
