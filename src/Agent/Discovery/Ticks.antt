-- ===== src/Agent/Discovery/Ticks.antt =====
-- One tick of Run of pkg/agent/discover.go, over a document store that is a map: which candidates it
-- hands on.
use mathlib.Core.List.{List, [], ◌∷◌, Mem, mem-cons_self, mem-cons_of_mem}
use mc_prototype.Base.{
  ℕ, suc, zero, ◌≡◌, refl, sym, ap, subst, ◌∙◌, String, Option, none, some, Bool, true, arith,
  str_eq, eq_iff, Bool-cases, Option-cases, inl, inr,
}
use mc_prototype.Dht.Network.{Network, Codec}
use mc_prototype.Dht.Json.{Node, get_json}
use mc_prototype.Dht.Json.Medium.{IsMap}
use mc_prototype.Dht.Json.Documents.{holds_get_json}
use mc_prototype.Task.Types.{TaskState, TaskIndex, no_state, no_index}
use mc_prototype.Task.Keys.{
  key_state, key_task_ad, key_p2p_manifest_mirror, key_index_shard, task_index_shard_count,
}
use mc_prototype.Control.World.{TaskAd, no_ad}
use mc_prototype.Control.Announce.{mem}
use mc_prototype.Agent.Discovery.{
  Candidate, ManifestAd, no_manifest_ad, read_task_ad, read_manifest_mirror, handle_job, with_state,
  with_ad, with_mirror, see, discover_ids, discover_tick, scan_shards, list_from_index,
}

module _ (n : Network) (ns : String) (holds : Node n → String → Option n.Bytes)
    (m : IsMap n ns holds) where
  -- Two states of the node in which every document is the same.
  abbrev pub Agrees : Node n → Node n → Type 0
  Agrees nd nd' = (j : String) → holds nd j ≡ holds nd' j

  module _ (c : Codec n.Bytes TaskIndex) where
    scan_shards-Agrees :
        (left shard : ℕ) (nd : Node n) → Agrees (scan_shards n ns c left shard nd).0 nd
    unfolding scan_shards
    scan_shards-Agrees zero shard nd j = refl
    scan_shards-Agrees (suc left) shard nd j =
        let found = get_json n ns c nd (key_index_shard ns shard) no_index in
        scan_shards-Agrees left (suc shard) found.0 j
        ∙ holds_get_json n ns holds m c nd (key_index_shard ns shard) no_index j

    list_from_index-Agrees : (nd : Node n) → Agrees (list_from_index n ns c nd).0 nd
    unfolding list_from_index
    list_from_index-Agrees nd j = scan_shards-Agrees task_index_shard_count 0 nd j

  module _ (states : Codec n.Bytes TaskState) (ads : Codec n.Bytes TaskAd)
      (mirrors : Codec n.Bytes ManifestAd) where
    with_mirror-Agrees :
        (id url : String) (x : Node n × Option ManifestAd)
        → Agrees (with_mirror n ns states ads mirrors id url x).0 x.0
    unfolding with_mirror
    with_mirror-Agrees id url (nd, none) j = refl
    with_mirror-Agrees id url (nd, some mir) j = refl

    with_ad-Agrees :
        (now : ℕ) (id : String) (x : Node n × Option TaskAd)
        → Agrees (with_ad n ns states ads mirrors now id x).0 x.0
    unfolding with_ad read_manifest_mirror
    with_ad-Agrees now id (nd, none) j = refl
    with_ad-Agrees now id (nd, some ad) j =
        with_mirror-Agrees id ad.demand_url (read_manifest_mirror n ns mirrors now id nd) j
        ∙ holds_get_json n ns holds m mirrors nd (key_p2p_manifest_mirror id) no_manifest_ad j

    with_state-Agrees :
        (now : ℕ) (seen : Option ℕ) (id : String) (x : Node n × TaskState × Bool)
        → Agrees (with_state n ns states ads mirrors now seen id x).0 x.0
    unfolding with_state read_task_ad
    with_state-Agrees now seen id (nd, st, found) j = ground (
      arith,
      with_ad-Agrees now id (read_task_ad n ns ads now id nd) j,
      holds_get_json n ns holds m ads nd (key_task_ad ns id) no_ad j,
    )

    handle_job-Agrees :
        (now : ℕ) (seen : Option ℕ) (id : String) (nd : Node n)
        → Agrees (handle_job n ns states ads mirrors now seen id nd).0 nd
    unfolding handle_job
    handle_job-Agrees now seen id nd j = ground (
      arith,
      with_state-Agrees now seen id (get_json n ns states nd (key_state id) no_state) j,
      holds_get_json n ns holds m states nd (key_state id) no_state j,
    )

    -- A job that is a candidate wherever the documents are the same, and that was not handed on before,
    -- is handed on by a tick that lists it.
    module _ (now later : String → ℕ) (id : String) (cand : Candidate) (nd0 : Node n)
        (offered : (nd : Node n)
          → Agrees nd nd0
          → (handle_job n ns states ads mirrors (now id) none id nd).1 ≡ some cand) where
      abbrev looked : String → (String → Option ℕ) → Node n → Node n
      looked x seen nd = (handle_job n ns states ads mirrors (now x) (seen x) x nd).0

      discover_ids-Mem :
          (ids : List String) (seen : String → Option ℕ) (nd : Node n)
          → mem id ids ≡ true
          → seen id ≡ none
          → Agrees nd nd0
          → Mem cand (discover_ids n ns states ads mirrors now later ids seen nd).2
      unfolding discover_ids see
      discover_ids-Mem [] seen nd h unseen a = absurd (ground arith)
      discover_ids-Mem (x ∷ ids) seen nd h unseen a = elim (Bool-cases (str_eq x id)) [
        | inl here ↦
            subst
              (λ (y : String).
                Mem cand (discover_ids n ns states ads mirrors now later (y ∷ ids) seen nd).2)
              (sym ((eq_iff x id).0 here))
              (rw
                (
                  ap (λ (o : Option ℕ). (handle_job n ns states ads mirrors (now id) o id nd).1)
                        unseen
                      ∙ offered nd a,
                  discover_ids,
                )
                mem-cons_self)
        | inr other ↦
            elim (Option-cases (handle_job n ns states ads mirrors (now x) (seen x) x nd).1) [
              | inl e ↦
                  rw (e, discover_ids)
                    (discover_ids-Mem ids seen (looked x seen nd) (ground (arith, h, other)) unseen
                      (λ j. handle_job-Agrees (now x) (seen x) x nd j ∙ a j))
              | inr (c, e) ↦
                  rw (e, discover_ids)
                    (mem-cons_of_mem c (
                      discover_ids-Mem ids (see n ns states ads mirrors seen x (later x))
                        (looked x seen nd) (ground (arith, h, other)) (rw other unseen)
                        (λ j. handle_job-Agrees (now x) (seen x) x nd j ∙ a j)))
            ]
      ]

      pub discover_tick-Mem :
          (c : Codec n.Bytes TaskIndex) (seen : String → Option ℕ)
          → mem id (list_from_index n ns c nd0).1 ≡ true
          → seen id ≡ none
          → Mem cand (discover_tick n ns states ads mirrors c now later seen nd0).2
      unfolding discover_tick
      discover_tick-Mem c seen listed unseen =
          discover_ids-Mem (list_from_index n ns c nd0).1 seen (list_from_index n ns c nd0).0 listed
            unseen (list_from_index-Agrees c nd0)
