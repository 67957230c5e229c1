-- ===== src/Control/Announce/Rounds.antt =====
-- What a round of AnnounceManager.Run leaves in the DHT, over a document store that is a map.
use mc_prototype.Base.{
  ℕ, ◌+◌, ◌≡◌, ◌≢◌, refl, sym, ap, subst, ◌∙◌, String, List, [], ◌∷◌, Option, Bool, Bool-cases, inl,
  inr, true, false, not, ◌||◌, str_eq, eq_iff, arith, if◌then◌else◌,
}
use mc_prototype.Dht.Network.{Network}
use mc_prototype.Dht.Json.{Node}
use mc_prototype.Dht.Json.Medium.{IsMap}
use mc_prototype.Dht.Json.Documents.{read_doc}
use mc_prototype.Task.Types.{Manifest, Provider, no_manifest}
use mc_prototype.Task.Keys.{
  key_manifest, key_task_ad, key_p2p_manifest_mirror, key_state, key_index_shard,
}
use mc_prototype.Task.Keys.Distinct.{
  manifest_ne_any_state, ad_ne_any_state, mirror_ne_any_state, manifest_ne_any_ad, ad_ne_any_mirror,
  ad_ne_any_manifest, mirror_ne_any_manifest, mirror_ne_any_ad, manifest_ne_any_mirror,
  manifest_ne_other, ad_ne_other, mirror_ne_other, manifest_ne_index, ad_ne_index, mirror_ne_index,
}
use mc_prototype.Control.World.{Codecs, AreFaithful, World, no_ad}
use mc_prototype.Control.Requests.{Env}
use mc_prototype.Control.Announce.{
  mem, is_due, due, announce_once, announce_all, process, announce_ttl,
}
use mc_prototype.Control.Announce.Laws.{head_ne, only_head, mem-filter}
use mc_prototype.Control.Announce.Documents.{
  announced_manifest, Announced, chosen, announce_once-Announced, holds-announce_once,
}

-- The providers of the manifest document, if it has a root.
abbrev pub known_providers : Manifest × Bool → List Provider
known_providers (man, found) = if not found || str_eq man.root_cid "" then [] else man.providers

announced_providers :
    (now : ℕ) (man : Manifest) (found : Bool)
    → ((announced_manifest now man found).providers ≡ known_providers (man, found))
      × (known_providers (announced_manifest now man found, true) ≡ known_providers (man, found))
announced_providers now man found = elim (Bool-cases (not found || str_eq man.root_cid "")) [
  | inl e ↦ rw e (refl, refl)
  | inr e ↦ rw e (refl, ground arith)
]

module _ (n : Network) (ns : String) (c : Codecs n.Bytes) (env : Env)
    (holds : Node n → String → Option n.Bytes) (m : IsMap n ns holds)
    (f : AreFaithful n.tombstone c) (id : String) where
  -- The job's documents, with the providers that were known of it.
  pub record Advertised (exp : ℕ) (providers : List Provider) (nd : Node n) : Type 0 where
    pub man : Manifest
    pub documents : Announced n ns c env holds m f id man exp nd
    pub same : man.providers ≡ providers

  pub agreeing-Advertised :
      (exp : ℕ) (providers : List Provider) (nd nd' : Node n)
      → ((j : String) → holds nd' j ≡ holds nd j)
      → Advertised exp providers nd
      → Advertised exp providers nd'
  agreeing-Advertised exp providers nd nd' same a = record {
    man = a.man;
    documents = record {
      ad = ap (read_doc c.ad no_ad) (same (key_task_ad ns id)) ∙ a.documents.ad;
      mirror = same (key_p2p_manifest_mirror id) ∙ a.documents.mirror;
      manifest =
          ap (read_doc c.manifest no_manifest) (same (key_manifest id)) ∙ a.documents.manifest;
    };
    same = a.same;
  }

  abbrev pub providers_at : Node n → List Provider
  providers_at nd = known_providers (read_doc c.manifest no_manifest (holds nd (key_manifest id)))

  -- Documents that no announcement writes.
  abbrev Apart : String → Type 0
  Apart j =
      (other : String)
      → (key_manifest other ≢ j) × (key_task_ad ns other ≢ j) × (key_p2p_manifest_mirror other ≢ j)

  pub state-Apart : Apart (key_state id)
  state-Apart other = (
    manifest_ne_any_state ns id other,
    ad_ne_any_state ns id other,
    mirror_ne_any_state ns id other,
  )

  pub index-Apart : (shard : ℕ) → Apart (key_index_shard ns shard)
  index-Apart shard other =
      (manifest_ne_index ns other shard, ad_ne_index ns other shard, mirror_ne_index ns other shard)

  holds-announce_all :
      (clock : String → ℕ) (ids : List String) (w : World n) (j : String)
      → Apart j
      → holds (announce_all n ns c env clock ids w).node j ≡ holds w.node j
  unfolding announce_all
  holds-announce_all clock [] w j d = refl
  holds-announce_all clock (x ∷ ids) w j d =
      holds-announce_all clock ids (announce_once n ns c env (clock x) x w) j d
      ∙ holds-announce_once n ns c env holds m f (clock x) x w j (d x).0 (d x).1 (d x).2

  -- Another job's announcement.
  module _ (now : ℕ) (other : String) (w : World n) (d : other ≢ id) where
    other_manifest :
        holds (announce_once n ns c env now other w).node (key_manifest id)
        ≡ holds w.node (key_manifest id)
    other_manifest =
        holds-announce_once n ns c env holds m f now other w (key_manifest id)
          (manifest_ne_other ns id other d) (ad_ne_any_manifest ns id other)
          (mirror_ne_any_manifest ns id other)

    other-Announced :
        (man : Manifest) (exp : ℕ)
        → Announced n ns c env holds m f id man exp w.node
        → Announced n ns c env holds m f id man exp (announce_once n ns c env now other w).node
    other-Announced man exp a = record {
      ad =
          ap (read_doc c.ad no_ad) (
            holds-announce_once n ns c env holds m f now other w (key_task_ad ns id)
              (manifest_ne_any_ad ns id other) (ad_ne_other ns id other d)
              (mirror_ne_any_ad ns id other))
          ∙ a.ad;
      mirror =
          holds-announce_once n ns c env holds m f now other w (key_p2p_manifest_mirror id)
            (manifest_ne_any_mirror ns id other) (ad_ne_any_mirror ns id other)
            (mirror_ne_other ns id other d)
          ∙ a.mirror;
      manifest = ap (read_doc c.manifest no_manifest) other_manifest ∙ a.manifest;
    }

  others-Announced :
      (clock : String → ℕ) (ids : List String) (w : World n) (man : Manifest) (exp : ℕ)
      → mem id ids ≡ false
      → Announced n ns c env holds m f id man exp w.node
      → Announced n ns c env holds m f id man exp (announce_all n ns c env clock ids w).node
  unfolding announce_all
  others-Announced clock [] w man exp h a = a
  others-Announced clock (x ∷ ids) w man exp h a =
      others-Announced clock ids (announce_once n ns c env (clock x) x w) man exp
        (ground (arith, h)) (other-Announced (clock x) x w (head_ne id x ids h) man exp a)

  self-Advertised :
      (now : ℕ) (w : World n)
      → Advertised
          (now + announce_ttl)
          (providers_at w.node)
          (announce_once n ns c env now id w).node
  self-Advertised now w = record {
    man = chosen n ns c env holds m f now id w;
    documents = announce_once-Announced n ns c env holds m f now id w;
    same = (announced_providers now old.0 old.1).0;
  }
    where
      old : Manifest × Bool
      old = read_doc c.manifest no_manifest (holds w.node (key_manifest id))

  self_providers :
      (now : ℕ) (w : World n)
      → providers_at (announce_once n ns c env now id w).node ≡ providers_at w.node
  self_providers now w =
      ap known_providers (announce_once-Announced n ns c env holds m f now id w).manifest
      ∙ (announced_providers now old.0 old.1).1
    where
      old : Manifest × Bool
      old = read_doc c.manifest no_manifest (holds w.node (key_manifest id))

  providers_kept :
      (now : ℕ) (x : String) (w : World n)
      → providers_at (announce_once n ns c env now x w).node ≡ providers_at w.node
  providers_kept now x w = elim (Bool-cases (str_eq x id)) [
    | inl e ↦
        subst
          (λ (y : String).
            providers_at (announce_once n ns c env now y w).node ≡ providers_at w.node)
          (sym ((eq_iff x id).0 e)) (self_providers now w)
    | inr e ↦
        ap (λ (o : Option n.Bytes). known_providers (read_doc c.manifest no_manifest o))
          (other_manifest now x w (λ (s : x ≡ id). ground (arith, e, s, eq_iff x id)))
  ]

  announce_all-Advertised :
      (clock : String → ℕ) (ids : List String) (w : World n)
      → mem id ids ≡ true
      → Advertised
          (clock id + announce_ttl)
          (providers_at w.node)
          (announce_all n ns c env clock ids w).node
  unfolding announce_all
  announce_all-Advertised clock [] w h = absurd (ground arith)
  announce_all-Advertised clock (x ∷ ids) w h = elim (Bool-cases (mem id ids)) [
    | inl later ↦
        subst
          (λ (l : List Provider).
            Advertised (clock id + announce_ttl) l (announce_all n ns c env clock (x ∷ ids) w).node)
          (providers_kept (clock x) x w)
          (announce_all-Advertised clock ids (announce_once n ns c env (clock x) x w) later)
    | inr last ↦
        subst
          (λ (y : String).
            Advertised (clock id + announce_ttl) (providers_at w.node)
              (announce_all n ns c env clock (y ∷ ids) w).node)
          (sym (only_head id x ids h last))
          (let own = self-Advertised (clock id) w in
            record {
              man = own.man;
              documents =
                  others-Announced clock ids (announce_once n ns c env (clock id) id w) own.man
                    (clock id + announce_ttl) last own.documents;
              same = own.same;
            })
  ]

  -- The round's candidates that are due are advertised until thirty seconds after their announcement.
  pub process-Advertised :
      (now : ℕ) (clock : String → ℕ) (w : World n)
      → mem id w.manager.dirty ≡ true
      → is_due now w.manager id ≡ true
      → Advertised
          (clock id + announce_ttl)
          (providers_at w.node)
          (process n ns c env now clock w).node
  unfolding process due
  process-Advertised now clock w listed ready =
      announce_all-Advertised clock (due now w.manager) w
        (mem-filter (is_due now w.manager) id w.manager.dirty ready listed)

  pub holds-process :
      (now : ℕ) (clock : String → ℕ) (w : World n) (j : String)
      → Apart j
      → holds (process n ns c env now clock w).node j ≡ holds w.node j
  unfolding process
  holds-process now clock w j d = holds-announce_all clock (due now w.manager) w j d
