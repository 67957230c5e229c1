-- ===== src/Agent/Discovery/Announced.antt =====
-- What the server announces against what the agent discovers (cmd/control, pkg/agent), over a document
-- store that is a map.
use mc_prototype.Base.{ℕ, ◌≤◌, ◌≡◌, ◌≢◌, ap, ◌∙◌, String, List, Option, none, some, true}
use mc_prototype.Dht.Network.{Network, Codec}
use mc_prototype.Dht.Json.{Node}
use mc_prototype.Dht.Json.Medium.{IsMap}
use mc_prototype.Dht.Json.Documents.{read_doc}
use mc_prototype.Task.Types.{Provider, TaskState, is_queued, no_state}
use mc_prototype.Task.Keys.{key_state, key_p2p_manifest_mirror}
use mc_prototype.Control.World.{Codecs, AreFaithful, ManifestMirror}
use mc_prototype.Control.Requests.{Env}
use mc_prototype.Control.Announce.{demand_url, task_ad, manifest_mirror}
use mc_prototype.Control.Announce.Rounds.{Advertised}
use mc_prototype.Agent.Discovery.{
  Candidate, ManifestAd, no_manifest_ad, filter_providers, handle_job,
}
use mc_prototype.Agent.Discovery.Offers.{offered_job_found}

abbrev pub mirrored : ManifestMirror → ManifestAd
mirrored mir = record no_manifest_ad { providers = mir.providers; exp = mir.exp }

-- encoding/json on the members that the server's manifestMirror and the agent's ManifestAd share.
pub record ReadsMirrors {Bytes : Type 0} (c : Codecs Bytes) (mirrors : Codec Bytes ManifestAd)
    : Type 0 where
  pub reads :
      (mir : ManifestMirror) (b : Bytes)
      → c.mirror.marshal mir ≡ some b
      → mirrors.unmarshal b no_manifest_ad ≡ (mirrored mir, true)

module _ (n : Network) (ns : String) (c : Codecs n.Bytes) (env : Env)
    (holds : Node n → String → Option n.Bytes) (m : IsMap n ns holds)
    (f : AreFaithful n.tombstone c) (mirrors : Codec n.Bytes ManifestAd)
    (r : ReadsMirrors c mirrors) (id : String) where
  read_mirrored :
      (mir : ManifestMirror) (o : Option n.Bytes)
      → o ≡ c.mirror.marshal mir
      → read_doc mirrors no_manifest_ad o ≡ (mirrored mir, true)
  read_mirrored mir o h =
      let (b, e, back) = f.mirror.total mir in
      ap (read_doc mirrors no_manifest_ad) (h ∙ e) ∙ r.reads mir b e

  -- A queued job that is advertised is a candidate, with the usable ones of its providers.
  pub Advertised-handle_job :
      (now exp : ℕ) (providers : List Provider) (nd : Node n) (st : TaskState)
      → id ≢ ""
      → read_doc c.state no_state (holds nd (key_state id)) ≡ (st, true)
      → is_queued st.status ≡ true
      → Advertised n ns c env holds m f id exp providers nd
      → now ≤ exp
      → (handle_job n ns c.state c.ad mirrors now none id nd).1
        ≡ some (record {
          job_id = id;
          providers = filter_providers providers;
          demand_url = demand_url env;
        })
  Advertised-handle_job now exp providers nd st e s q a le =
      offered_job_found n ns holds m c.state c.ad mirrors now id nd st (task_ad ns env id a.man exp)
        (mirrored (manifest_mirror a.man exp)) e s q a.documents.ad le
        (read_mirrored (manifest_mirror a.man exp) (holds nd (key_p2p_manifest_mirror id))
          a.documents.mirror)
        le
      ∙ ap (λ (l : List Provider). some (offer l)) a.same
    where
      offer : List Provider → Candidate
      offer l = record { job_id = id; providers = filter_providers l; demand_url = demand_url env }
