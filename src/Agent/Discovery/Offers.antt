-- ===== src/Agent/Discovery/Offers.antt =====
-- Which jobs the agent hands on, over a document store that is a map.
use mc_prototype.Base.{
  ℕ, ◌≤◌, ◌≡◌, ◌≢◌, ap, ◌∙◌, String, Option, none, some, true, false, arith, str_ne,
}
use mc_prototype.Dht.Network.{Network, Codec}
use mc_prototype.Dht.Json.{Node, get_json}
use mc_prototype.Dht.Json.Medium.{IsMap}
use mc_prototype.Dht.Json.Documents.{read_doc, get_json_found, holds_get_json}
use mc_prototype.Task.Types.{TaskState, is_queued, no_state}
use mc_prototype.Task.Keys.{key_state, key_task_ad, key_p2p_manifest_mirror}
use mc_prototype.Control.World.{TaskAd, no_ad}
use mc_prototype.Agent.Discovery.{
  ManifestAd, no_manifest_ad, filter_providers, read_task_ad, read_manifest_mirror, handle_job,
  with_state, with_ad, with_mirror, recently,
}

module _ (n : Network) (ns : String) (holds : Node n → String → Option n.Bytes)
    (m : IsMap n ns holds) (states : Codec n.Bytes TaskState) (ads : Codec n.Bytes TaskAd)
    (mirrors : Codec n.Bytes ManifestAd) where
  module _ (now : ℕ) (id : String) (nd : Node n) (st : TaskState) (ad : TaskAd)
      (mir : ManifestAd) where
    -- A queued job whose ad and whose manifest mirror are there and not over, and that was not handed
    -- on before, is a candidate: with the mirror's usable providers and the ad's URL.
    pub offered_job_found :
        id ≢ ""
        → read_doc states no_state (holds nd (key_state id)) ≡ (st, true)
        → is_queued st.status ≡ true
        → read_doc ads no_ad (holds nd (key_task_ad ns id)) ≡ (ad, true)
        → now ≤ ad.exp
        → read_doc mirrors no_manifest_ad (holds nd (key_p2p_manifest_mirror id)) ≡ (mir, true)
        → now ≤ mir.exp
        → (handle_job n ns states ads mirrors now none id nd).1
          ≡ some (record {
            job_id = id;
            providers = filter_providers mir.providers;
            demand_url = ad.demand_url;
          })
    unfolding handle_job with_state with_ad with_mirror recently read_task_ad read_manifest_mirror
    offered_job_found e s q a la o lo = ground (
      arith,
      str_ne id "" e,
      get_json_found n ns holds m states nd (key_state id) no_state st s,
      get_json_found n ns holds m ads nd1 (key_task_ad ns id) no_ad ad there,
      get_json_found n ns holds m mirrors nd2 (key_p2p_manifest_mirror id) no_manifest_ad mir
          there2,
    )
      where
        nd1 : Node n
        nd1 = (get_json n ns states nd (key_state id) no_state).0

        nd2 : Node n
        nd2 = (get_json n ns ads nd1 (key_task_ad ns id) no_ad).0

        there : read_doc ads no_ad (holds nd1 (key_task_ad ns id)) ≡ (ad, true)
        there =
            ap (read_doc ads no_ad)
              (holds_get_json n ns holds m states nd (key_state id) no_state (key_task_ad ns id))
            ∙ a

        there2 :
            read_doc mirrors no_manifest_ad (holds nd2 (key_p2p_manifest_mirror id)) ≡ (mir, true)
        there2 =
            ap (read_doc mirrors no_manifest_ad) (
              holds_get_json n ns holds m ads nd1 (key_task_ad ns id) no_ad
                (key_p2p_manifest_mirror id)
              ∙ holds_get_json n ns holds m states nd (key_state id) no_state
                  (key_p2p_manifest_mirror id))
            ∙ o

  -- A job whose state document says that it is not queued is no candidate, whatever else is there.
  pub taken_job_skipped :
      (now : ℕ) (seen : Option ℕ) (id : String) (nd : Node n) (st : TaskState)
      → read_doc states no_state (holds nd (key_state id)) ≡ (st, true)
      → is_queued st.status ≡ false
      → (handle_job n ns states ads mirrors now seen id nd).1 ≡ none
  unfolding handle_job with_state
  taken_job_skipped now seen id nd st s q =
      ground (arith, get_json_found n ns holds m states nd (key_state id) no_state st s)
