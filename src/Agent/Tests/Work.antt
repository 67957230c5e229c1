-- ===== src/Agent/Tests/Work.antt =====
-- A candidate's execution at concrete documents and calls.
use mathlib.Core.List.{[], ◌∷◌}
use mc_prototype.Base.{◌≡◌, none, true, false, pos}
use mc_prototype.Task.Types.{Lease, no_lease, Manifest, no_manifest, TaskMeta}
use mc_prototype.Task.Keys.{key_manifest, key_meta}
use mc_prototype.Dht.Network.{Network, Codec}
use mc_prototype.Dht.Json.{Node, ns_key, store_local}
use mc_prototype.Dht.Samples.{hermit, Content, blank, foreign, document, codec}
use mc_prototype.Control.World.{empty, claimed}
use mc_prototype.Agent.Attempt.{Attempt, done}
use mc_prototype.Agent.Client.{answered}
use mc_prototype.Agent.Container.{Machine, finished}
use mc_prototype.Agent.Fetch.{Files}
use mc_prototype.Agent.Discovery.{Candidate}
use mc_prototype.Agent.Execution.{Config, Outside, on_candidate}
use mc_prototype.Agent.Execution.Kept.{is_kept, on_candidate_kept}
use mc_prototype.Agent.Tests.Runs.{near, wire, disk, stocked}

pub data Doc : Type 0 where
  empty_object : Doc
  a_manifest : Manifest → Doc
  a_meta : TaskMeta → Doc

pub read_manifest : Doc → Content Manifest
read_manifest empty_object = blank
read_manifest (a_manifest m) = document m
read_manifest _ = foreign

pub read_meta : Doc → Content TaskMeta
read_meta empty_object = blank
read_meta (a_meta m) = document m
read_meta _ = foreign

abbrev pub n : Network
n = hermit Doc (λ a b. true) empty_object

abbrev pub manifests : Codec Doc Manifest
manifests = codec a_manifest read_manifest

abbrev pub metas : Codec Doc TaskMeta
metas = codec a_meta read_meta

abbrev attached : Manifest
attached = record no_manifest { root_cid = "cid"; providers = near ∷ [] }

abbrev described : TaskMeta
described = record { id = "j1"; image = "alpine"; command = "convert" ∷ []; created_at = 7 }

abbrev pub node : Node n
node = record {
  net = tt;
  local =
      store_local (store_local (λ k. none) (ns_key "mc" (key_manifest "j1")) (a_manifest attached))
        (ns_key "mc" (key_meta "j1")) (a_meta described);
}

abbrev machine : Machine
machine = record {
  look_path = none;
  abs = λ p. done "/root/work/j1";
  run = λ args. record { exit = finished; stdout = "ok"; stderr = ""; duration = 5000000 };
}

abbrev pub lease : Lease
lease = record no_lease { owner = "a"; version = pos 4 }

abbrev pub outside : Outside
outside = record {
  claim = answered 200 (claimed lease);
  wire = wire true stocked;
  disk = disk;
  machine = machine;
  finish = λ k. answered 204 empty;
}

abbrev pub cfg : Config
cfg = record {
  control_url = "http://control";
  token = "secret";
  agent_id = "a";
  ttl = pos 15000000000;
}

abbrev pub candidate : Candidate
candidate = record { job_id = "j1"; providers = []; demand_url = "" }

abbrev pub files : Files
files = λ p. none

on_candidate_kept_example :
    is_kept false (on_candidate n "mc" manifests metas cfg outside candidate files node).2 ≡ true
on_candidate_kept_example =
    on_candidate_kept n "mc" manifests metas cfg outside candidate files node
