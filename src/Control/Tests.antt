-- ===== src/Control/Tests.antt =====
-- The handlers at concrete requests, over a DHT that keeps every document.
mod Leases
mod Cycle
mod Serving
mod Rounds
mod Discovered
use mc_prototype.Base.{refl, String, Option, true}
use mc_prototype.Base.{
  ℕ, ◌≡◌, ◌≢◌, ◌*◌, ◌≤◌, inl, none, some, [], ◌∷◌, false, pos, negsuc, arith, eq_iff,
}
use mc_prototype.Lease.Types
use mc_prototype.Lease.Types.{second}
use mc_prototype.Lease.Table.{Row, find_row}
use mc_prototype.Lease.Update.{new_row, claim_guard, claim_change, finish_guard, finish_change}
use mc_prototype.Lease.Store.{at}
use mc_prototype.Lease.Store.Refusals.{alone}
use mc_prototype.Lease.History.{claims, exec}
use mc_prototype.Text.{lower_is, parse_uint, trim_slashes, split}
use mc_prototype.Task.Keys.{key_lease}
use mc_prototype.Dht.Json.Documents.{read_doc}
use mc_prototype.Control.World.{World, claim_refused, claimed, text, reply, panicked, empty}
use mc_prototype.Control.Requests.{
  Env, Request, require_auth, path_parts, ttl_or_default, ttl_or_default_bounds, header_token,
}
use mc_prototype.Control.Claims.{TryClaimIn, lease_doc, try_claim_handler}
use mc_prototype.Control.Claims.Laws.{
  Accepted, Assigned, claim_grants, claim_without_manifest_panics, claim_conflict_refusal,
  claim_unknown_refusal,
}
use mc_prototype.Control.Finishes.{FinishIn, outcome_of, finish_handler}
use mc_prototype.Control.Finishes.Laws
use mc_prototype.Control.Finishes.Laws.{Closed, finish_completes, refused_finish_closes_mirror}
use mc_prototype.Dht.Network.{Network}
use mc_prototype.Dht.Json.{Node}
use mc_prototype.Dht.Json.Medium.{IsMap, shared_view, connected-IsMap}
use mc_prototype.Dht.Samples.{
  keeper, keeper-IsConnected, Content, blank, foreign, document, codec, codec-IsFaithful,
}
use mc_prototype.Task.Types.{
  Lease, Manifest, TaskMeta, TaskState, TaskIndex, no_lease, no_state, no_manifest, no_meta,
  no_index,
}
use mc_prototype.Control.World.{Codecs, AreFaithful, TaskAd, ManifestMirror, no_ad, no_mirror}
use mc_prototype.Task.Types as Task
use mc_prototype.Base.{int64}
use mc_prototype.Lease.Types.{assigned, succeeded}
use mc_prototype.Lease.Update.{after_seconds}
use mc_prototype.Lease.Table.{find_row}

-- The documents that a job has in the DHT.
data Doc : Type 0 where
  empty_object : Doc
  a_lease : Lease → Doc
  a_state : TaskState → Doc
  a_meta : TaskMeta → Doc
  a_manifest : Manifest → Doc
  a_mirror : ManifestMirror → Doc
  an_ad : TaskAd → Doc
  an_index : TaskIndex → Doc

read_lease : Doc → Content Lease
read_lease empty_object = blank
read_lease (a_lease l) = document l
read_lease _ = foreign

read_state : Doc → Content TaskState
read_state empty_object = blank
read_state (a_state s) = document s
read_state _ = foreign

read_meta : Doc → Content TaskMeta
read_meta empty_object = blank
read_meta (a_meta s) = document s
read_meta _ = foreign

read_manifest : Doc → Content Manifest
read_manifest empty_object = blank
read_manifest (a_manifest s) = document s
read_manifest _ = foreign

read_mirror : Doc → Content ManifestMirror
read_mirror empty_object = blank
read_mirror (a_mirror s) = document s
read_mirror _ = foreign

read_ad : Doc → Content TaskAd
read_ad empty_object = blank
read_ad (an_ad s) = document s
read_ad _ = foreign

read_index : Doc → Content TaskIndex
read_index empty_object = blank
read_index (an_index s) = document s
read_index _ = foreign

abbrev n : Network
n = keeper Doc (λ a b. true) empty_object

abbrev c : Codecs Doc
c = record {
  lease = codec a_lease read_lease;
  state = codec a_state read_state;
  meta = codec a_meta read_meta;
  manifest = codec a_manifest read_manifest;
  mirror = codec a_mirror read_mirror;
  ad = codec an_ad read_ad;
  index = codec an_index read_index;
}

c-AreFaithful : AreFaithful empty_object c
unfolding read_lease read_state read_meta read_manifest read_mirror read_ad read_index
c-AreFaithful = record {
  lease = codec-IsFaithful empty_object no_lease a_lease read_lease refl (λ a. refl);
  state = codec-IsFaithful empty_object no_state a_state read_state refl (λ a. refl);
  meta = codec-IsFaithful empty_object no_meta a_meta read_meta refl (λ a. refl);
  manifest = codec-IsFaithful empty_object no_manifest a_manifest read_manifest refl (λ a. refl);
  mirror = codec-IsFaithful empty_object no_mirror a_mirror read_mirror refl (λ a. refl);
  ad = codec-IsFaithful empty_object no_ad an_ad read_ad refl (λ a. refl);
  index = codec-IsFaithful empty_object no_index an_index read_index refl (λ a. refl);
}

abbrev view : Node n → String → Option Doc
view = shared_view n "mc" (λ s. s)

view-IsMap : IsMap n "mc" view
view-IsMap = connected-IsMap n "mc" (λ s. s) (keeper-IsConnected Doc (λ a b. true) empty_object)

abbrev job : Types.DbJob
job = record {
  id = "j1";
  image = "alpine";
  command = "echo" ∷ [];
  status = Types.queued;
  created_at = 7;
  retry_count = 0;
}

abbrev open_env : Env
open_env = record { disable_auth = "1"; control_token = ""; public_url = ""; http_port = "" }

abbrev request : {A : Type 0} → String → String → Option A → Request A
request path token body = record {
  method = "POST";
  path = path;
  authorization = "";
  agent_header = "a";
  token_header = token;
  query_limit = "";
  query_offset = "";
  query_token = "";
  body = body;
}

-- One queued job, and nothing in the DHT.
abbrev world : World n
world = record {
  table = new_row job ∷ [];
  node = record { net = λ k. none; local = λ k. none };
  manager = record { dirty = []; last = λ k. 0; trigger = false };
}

abbrev wants : TryClaimIn
wants = record { agent_id = "a"; ttl_sec = pos 15 }

abbrev claim_request : Request TryClaimIn
claim_request = request "/api/tasks/j1/try-claim" "" (some wants)

a_not_empty : ◌≢◌ {A = String} "a" ""
a_not_empty = ground (arith, eq_iff "a" "")

claim-Accepted : Accepted open_env claim_request "j1" wants
unfolding require_auth path_parts trim_slashes split
claim-Accepted = record { auth = refl; parts = refl; decoded = refl; named = a_not_empty }

abbrev first_lease : Types.Lease
first_lease = record { agent_id = "a"; expire_at = 15000000100; fencing_token = 1 }

abbrev asked : ℕ
asked = ttl_or_default (pos 15)

row_found : find_row "j1" world.table ≡ some (new_row job)
unfolding find_row new_row
row_found = refl

abbrev granted_lease : Task.Lease
granted_lease = record {
  owner = "a";
  nonce = "";
  expires = after_seconds 100 asked;
  version = int64 1;
}

claim_grants_example :
    let (w', response) = try_claim_handler n "mc" c open_env (alone 100) 200 claim_request world in
    (response ≡ reply 200 (claimed granted_lease))
    × (w'.table ≡ exec 100 (claims "j1" "a" asked) world.table)
    × (find_row "j1" w'.table
        ≡ some (record (new_row job) {
          lease_agent = some "a";
          lease_expires_at = some (after_seconds 100 asked);
          lease_token = 1;
          status = assigned;
        }))
    × (read_doc c.lease no_lease (view w'.node (key_lease "j1")) ≡ (granted_lease, true))
    × Assigned n "mc" c view view-IsMap c-AreFaithful "j1" "a" 200 world.node w'.node
unfolding new_row claim_guard ttl_or_default
claim_grants_example =
    claim_grants n "mc" c view view-IsMap c-AreFaithful open_env (alone 100) 100 200 claim_request
      "j1" wants world (new_row job) claim-Accepted refl row_found refl

-- The job is leased to b, and its manifest was never attached.
abbrev leased_row : Row
leased_row = claim_change 100 "b" 15000000000 (new_row job)

abbrev leased : World n
leased = record world { table = leased_row ∷ [] }

leased_found : find_row "j1" leased.table ≡ some leased_row
unfolding find_row claim_change new_row
leased_found = refl

claim_without_manifest_panics_example :
    let (w', response) = try_claim_handler n "mc" c open_env (alone 900) 200 claim_request leased in
    (response ≡ panicked)
    × (w'.table ≡ leased.table)
    × Assigned n "mc" c view view-IsMap c-AreFaithful "j1" "a" 200 leased.node w'.node
unfolding claim_guard claim_change new_row
claim_without_manifest_panics_example =
    claim_without_manifest_panics n "mc" c view view-IsMap c-AreFaithful open_env 900 200
      claim_request "j1" wants leased leased_row claim-Accepted leased_found refl (inl refl)

abbrev finished : FinishIn
finished = record { status = "Succeeded"; metrics = none; artifacts = none; result_cid = "cid" }

abbrev finish_request : Request FinishIn
finish_request = request "/jobs/j1/finish" "1" (some finished)

finish-Accepted : Laws.Accepted open_env finish_request "j1" finished
unfolding require_auth path_parts trim_slashes split
finish-Accepted = record { auth = refl; post = refl; parts = refl; decoded = refl }

abbrev held_row : Row
held_row = claim_change 100 "a" 15000000000 (new_row job)

abbrev held : World n
held = record world { table = held_row ∷ [] }

held_found : find_row "j1" held.table ≡ some held_row
unfolding find_row claim_change new_row
held_found = refl

finish_completes_example :
    let (w', response) = finish_handler n "mc" c open_env (at 500) 600 finish_request held in
    (response ≡ reply 204 empty)
    × (find_row "j1" w'.table
        ≡ some (record held_row {
          status = succeeded;
          result_root_cid = some finished.result_cid;
          artifacts = finished.artifacts;
          metrics = finished.metrics;
          lease_agent = none;
          lease_expires_at = none;
        }))
    × Closed n "mc" c view view-IsMap c-AreFaithful "j1" true 600 held.node w'.node
unfolding claim_change new_row finish_guard header_token lower_is parse_uint
finish_completes_example =
    finish_completes n "mc" c view view-IsMap c-AreFaithful open_env 500 600 finish_request "j1"
      finished held held_row finish-Accepted held_found refl

refused_finish_closes_mirror_example :
    let (w', response) = finish_handler n "mc" c open_env (at 500) 600 finish_request leased in
    (response ≡ reply 204 empty)
    × (w'.table ≡ leased.table)
    × Closed n "mc" c view view-IsMap c-AreFaithful "j1" true 600 leased.node w'.node
unfolding find_row claim_change new_row finish_guard header_token lower_is parse_uint
refused_finish_closes_mirror_example =
    refused_finish_closes_mirror n "mc" c view view-IsMap c-AreFaithful open_env 500 600
      finish_request "j1" finished leased finish-Accepted refl
