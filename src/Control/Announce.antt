-- ===== src/Control/Announce.antt =====
-- announceAds of cmd/control/control_http.go and AnnounceManager of cmd/control/main.go. Go leaves the
-- order in which a map is read open: the model takes the order of insertion.
pub mod Documents
pub mod Rounds
pub mod Laws
pub mod Statements
use Prim.Native.String.{◌++◌}
use mc_prototype.Base.{
  ℕ, ◌+◌, ◌*◌, String, List, [], ◌∷◌, ◌++◌ as append, Bool, true, false, not, ◌||◌, str_eq, leb,
  ◌==◌, pos, if◌then◌else◌, filter,
}
use mc_prototype.Dht.Network.{Network}
use mc_prototype.Dht.Json.{Node, put_json, get_json}
use mc_prototype.Task.Types.{Provider, Manifest, no_manifest}
use mc_prototype.Task.Keys.{key_manifest, key_task_ad, key_p2p_manifest_mirror}
use mc_prototype.Lease.Types.{second}
use mc_prototype.Control.World.{TaskAd, ManifestMirror, Codecs, Manager, World}
use mc_prototype.Control.Requests.{Env}

abbrev pub mem : String → List String → Bool
mem id [] = false
mem id (x ∷ xs) = str_eq x id || mem id xs

-- The URL that an ad gives.
unfoldable pub demand_url : Env → String
demand_url env =
    if str_eq env.public_url ""
    then (if str_eq env.http_port ""
        then "http://127.0.0.1:8080"
        else "http://127.0.0.1:" ++ env.http_port)
    else env.public_url

abbrev pub announce_ttl : ℕ
announce_ttl = 30 * second

abbrev pub announce_interval : ℕ
announce_interval = 3 * second

-- Enqueue; the send into the full channel does nothing.
unfoldable pub enqueue : String → Manager → Manager
enqueue id m = record m {
  dirty = if mem id m.dirty then m.dirty else append m.dirty (id ∷ []);
  trigger = true;
}

-- last.IsZero() || now.Sub(last) >= interval
unfoldable pub is_due : ℕ → Manager → String → Bool
is_due now m id = (m.last id == 0) || leb (m.last id + announce_interval) now

-- The jobs that `process` announces.
unfoldable pub due : ℕ → Manager → List String
unfolding is_due
due now m = filter (is_due now m) m.dirty

abbrev pub set_last : (String → ℕ) → String → ℕ → String → ℕ
set_last f id t j = if str_eq id j then t else f j

abbrev pub noop_manifest : ℕ → Manifest
noop_manifest now = record no_manifest { root_cid = "noop"; version = pos 1; updated_at = now }

abbrev pub task_ad : String → Env → String → Manifest → ℕ → TaskAd
task_ad ns env id man exp = record {
  job_id = id;
  namespace = ns;
  topic = man.rendezvous;
  demand_url = demand_url env;
  exp = exp;
  sig = "";
}

abbrev pub manifest_mirror : Manifest → ℕ → ManifestMirror
manifest_mirror man exp = record { providers = man.providers; exp = exp }

module _ (n : Network) (ns : String) (c : Codecs n.Bytes) (env : Env) where
  -- putManifestMirror, which nothing calls.
  unfoldable pub put_manifest_mirror : Node n → String → List Provider → ℕ → ℕ → Node n × Bool
  put_manifest_mirror nd id providers now ttl =
      put_json n ns c.mirror nd (key_p2p_manifest_mirror id)
        (record { providers = providers; exp = now + ttl })

  unfoldable pub announce_ads : Node n → String → Manifest → ℕ → ℕ → Node n
  unfolding demand_url
  announce_ads nd id man now ttl =
      let nd1 = (put_json n ns c.ad nd (key_task_ad ns id) (task_ad ns env id man (now + ttl))).0 in
      (put_json n ns c.mirror nd1 (key_p2p_manifest_mirror id) (manifest_mirror man (now + ttl))).0

  -- The manifest that announceOnce reads, or the placeholder that it writes.
  ensure_manifest : String → ℕ → Node n × Manifest × Bool → Node n × Manifest
  ensure_manifest id now (nd, man, ok) =
      if not ok || str_eq man.root_cid ""
      then (
        (put_json n ns c.manifest nd (key_manifest id) (noop_manifest now)).0,
        noop_manifest now,
      )
      else (nd, man)

  unfoldable pub announce_once : ℕ → String → World n → World n
  unfolding ensure_manifest announce_ads
  announce_once now id w =
      let (nd, man) =
        ensure_manifest id now (get_json n ns c.manifest w.node (key_manifest id) no_manifest) in
      let m = w.manager in
      record w {
        node = announce_ads nd id man now announce_ttl;
        manager = record m { last = set_last m.last id now };
      }

  announce_all : (String → ℕ) → List String → World n → World n
  unfolding announce_once
  announce_all clock [] w = w
  announce_all clock (id ∷ ids) w = announce_all clock ids (announce_once (clock id) id w)

  -- `process`: one reading of the clock selects, and each announcement reads its own.
  unfoldable pub process : ℕ → (String → ℕ) → World n → World n
  unfolding announce_all due
  process now clock w = announce_all clock (due now w.manager) w
