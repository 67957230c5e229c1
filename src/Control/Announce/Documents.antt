-- ===== src/Control/Announce/Documents.antt =====
-- What announceOnce leaves in the DHT, over a document store that is a map.
use mc_prototype.Base.{
  ℕ, ◌+◌, ◌≡◌, ◌≢◌, refl, sym, ap, ◌∙◌, String, Option, Bool, Bool-cases, inl, inr, true, not, ◌||◌,
  str_eq, arith, if◌then◌else◌,
}
use mc_prototype.Dht.Network.{Network}
use mc_prototype.Dht.Json.{Node, put_json, get_json}
use mc_prototype.Dht.Json.Medium.{IsMap}
use mc_prototype.Dht.Json.Documents.{
  read_doc, get_json_value, get_json_ok, holds_get_json, holds_put_json, put_json_doc,
  put_json_bytes,
}
use mc_prototype.Task.Types.{Manifest, no_manifest}
use mc_prototype.Task.Keys.{key_manifest, key_task_ad, key_p2p_manifest_mirror}
use mc_prototype.Task.Keys.Distinct.{ad_ne_any_manifest, mirror_ne_any_manifest, mirror_ne_any_ad}
use mc_prototype.Control.World.{Codecs, AreFaithful, World, no_ad, no_mirror}
use mc_prototype.Control.Requests.{Env}
use mc_prototype.Control.Announce.{
  task_ad, manifest_mirror, noop_manifest, announce_ads, ensure_manifest, announce_once,
  announce_ttl,
}

-- The manifest that is announced: the document, or the placeholder where there is none with a root.
abbrev pub announced_manifest : ℕ → Manifest → Bool → Manifest
announced_manifest now man found =
    if not found || str_eq man.root_cid "" then noop_manifest now else man

module _ (n : Network) (ns : String) (c : Codecs n.Bytes) (env : Env)
    (holds : Node n → String → Option n.Bytes) (m : IsMap n ns holds)
    (f : AreFaithful n.tombstone c) where
  -- The documents that agents look for, while the manifest's providers are announced until `exp`.
  pub record Announced (id : String) (man : Manifest) (exp : ℕ) (nd : Node n) : Type 0 where
    pub ad : read_doc c.ad no_ad (holds nd (key_task_ad ns id)) ≡ (task_ad ns env id man exp, true)
    pub mirror : holds nd (key_p2p_manifest_mirror id) ≡ c.mirror.marshal (manifest_mirror man exp)
    pub manifest : read_doc c.manifest no_manifest (holds nd (key_manifest id)) ≡ (man, true)

  -- Announcing leaves the documents at other keys as they are.
  module _ (nd : Node n) (id : String) (man : Manifest) (now ttl : ℕ) where
    ads1 : Node n
    ads1 = (put_json n ns c.ad nd (key_task_ad ns id) (task_ad ns env id man (now + ttl))).0

    holds_announce_ads :
        (j : String)
        → key_task_ad ns id ≢ j
        → key_p2p_manifest_mirror id ≢ j
        → holds (announce_ads n ns c env nd id man now ttl) j ≡ holds nd j
    unfolding announce_ads ads1
    holds_announce_ads j d e =
        holds_put_json n ns holds m c.mirror ads1 (key_p2p_manifest_mirror id)
          (manifest_mirror man (now + ttl)) j e
        ∙ holds_put_json n ns holds m c.ad nd (key_task_ad ns id)
            (task_ad ns env id man (now + ttl)) j d

    announce_ads-Announced :
        read_doc c.manifest no_manifest (holds nd (key_manifest id)) ≡ (man, true)
        → Announced id man (now + ttl) (announce_ads n ns c env nd id man now ttl)
    unfolding announce_ads ads1
    announce_ads-Announced there = record {
      ad =
          ap (read_doc c.ad no_ad) (
            holds_put_json n ns holds m c.mirror ads1 (key_p2p_manifest_mirror id)
              (manifest_mirror man (now + ttl)) (key_task_ad ns id) (mirror_ne_any_ad ns id id))
          ∙ (put_json_doc n ns holds m c.ad nd (key_task_ad ns id) no_ad
              (task_ad ns env id man (now + ttl)) f.ad).1;
      mirror =
          put_json_bytes n ns holds m c.mirror ads1 (key_p2p_manifest_mirror id) no_mirror
            (manifest_mirror man (now + ttl)) f.mirror;
      manifest =
          ap (read_doc c.manifest no_manifest) (
            holds_announce_ads (key_manifest id) (ad_ne_any_manifest ns id id)
              (mirror_ne_any_manifest ns id id))
          ∙ there;
    }

  -- Whatever was read, the placeholder is written where it is announced, and nothing else is.
  module _ (now : ℕ) (id : String) (x : Node n × Manifest × Bool) where
    holds-ensure_manifest :
        (j : String)
        → key_manifest id ≢ j
        → holds (ensure_manifest n ns c env id now x).0 j ≡ holds x.0 j
    unfolding ensure_manifest
    holds-ensure_manifest j d = elim (Bool-cases (not x.2 || str_eq x.1.root_cid "")) [
      | inl e ↦
          rw e
            (holds_put_json n ns holds m c.manifest x.0 (key_manifest id) (noop_manifest now) j d)
      | inr e ↦ rw e refl
    ]

    ensure_manifest_chosen :
        (ensure_manifest n ns c env id now x).1 ≡ announced_manifest now x.1 x.2
    unfolding ensure_manifest
    ensure_manifest_chosen = ground arith

    ensure_manifest_there :
        read_doc c.manifest no_manifest (holds x.0 (key_manifest id)) ≡ (x.1, x.2)
        → read_doc c.manifest no_manifest
            (holds (ensure_manifest n ns c env id now x).0 (key_manifest id))
          ≡ (announced_manifest now x.1 x.2, true)
    unfolding ensure_manifest
    ensure_manifest_there h = elim (Bool-cases (not x.2 || str_eq x.1.root_cid "")) [
      | inl e ↦
          rw e
            (put_json_doc n ns holds m c.manifest x.0 (key_manifest id) no_manifest
              (noop_manifest now) f.manifest).1
      | inr e ↦ rw e (h ∙ ground arith)
    ]

  module _ (now : ℕ) (id : String) (w : World n) where
    abbrev old_manifest : Manifest × Bool
    old_manifest = read_doc c.manifest no_manifest (holds w.node (key_manifest id))

    -- The manifest that a job's announcement has.
    abbrev pub chosen : Manifest
    chosen = announced_manifest now old_manifest.0 old_manifest.1

    looked : Node n × Manifest × Bool
    looked = get_json n ns c.manifest w.node (key_manifest id) no_manifest

    ready : Node n
    ready = (ensure_manifest n ns c env id now looked).0

    read_manifest : (looked.1, looked.2) ≡ old_manifest
    unfolding looked
    read_manifest = ground (
      arith,
      get_json_value n ns holds m c.manifest w.node (key_manifest id) no_manifest,
      get_json_ok n ns holds m c.manifest w.node (key_manifest id) no_manifest,
    )

    picked : (ensure_manifest n ns c env id now looked).1 ≡ chosen
    picked =
        ensure_manifest_chosen now id looked
        ∙ ap (λ (x : Manifest × Bool). announced_manifest now x.0 x.1) read_manifest

    holds-looked : (j : String) → holds looked.0 j ≡ holds w.node j
    unfolding looked
    holds-looked j = holds_get_json n ns holds m c.manifest w.node (key_manifest id) no_manifest j

    ready_manifest :
        read_doc c.manifest no_manifest (holds ready (key_manifest id)) ≡ (chosen, true)
    unfolding ready
    ready_manifest =
        ensure_manifest_there now id looked (
          ap (read_doc c.manifest no_manifest) (holds-looked (key_manifest id)) ∙ sym read_manifest)
        ∙ ap (λ (man : Manifest). (man, true)) (sym (ensure_manifest_chosen now id looked) ∙ picked)

    announced_node :
        (announce_once n ns c env now id w).node
        ≡ announce_ads n ns c env ready id chosen now announce_ttl
    unfolding announce_once ready looked
    announced_node =
        ap (λ (man : Manifest). announce_ads n ns c env ready id man now announce_ttl) picked

    pub announce_once-Announced :
        Announced id chosen (now + announce_ttl) (announce_once n ns c env now id w).node
    announce_once-Announced =
        rw announced_node (announce_ads-Announced ready id chosen now announce_ttl ready_manifest)

    pub holds-announce_once :
        (j : String)
        → key_manifest id ≢ j
        → key_task_ad ns id ≢ j
        → key_p2p_manifest_mirror id ≢ j
        → holds (announce_once n ns c env now id w).node j ≡ holds w.node j
    holds-announce_once j a b d = rw announced_node (
        holds_announce_ads ready id chosen now announce_ttl j b d
        ∙ unfold ready in (holds-ensure_manifest now id looked j a ∙ holds-looked j))
