-- ===== src/Agent/Execution/Laws.antt =====
-- The reports of onCandidate.
use mathlib.Core.List.{List, [], ◌∷◌}
use mc_prototype.Base.{
  ℕ, zero, suc, ◌<◌, ◌≤◌, ◌≡◌, eq_ℤ, String, Bool, true, false, not, ◌&&◌, ◌||◌, str_eq,
}
use mc_prototype.Text.{lower_is}
use mc_prototype.Text.Clean.{file_join}
use mc_prototype.Dht.Network.{Network, Codec}
use mc_prototype.Dht.Json.{Node, get_json}
use mc_prototype.Task.Types.{Lease, Manifest, no_manifest, TaskMeta, no_meta}
use mc_prototype.Task.Keys.{key_manifest, key_meta}
use mc_prototype.Control.Requests.{Request}
use mc_prototype.Control.Finishes.{FinishIn}
use mc_prototype.Agent.Attempt.{Attempt, done, error, crash}
use mc_prototype.Agent.Client.{finish_request, max_finish_retries}
use mc_prototype.Agent.Container.{RunResult, run_in_container}
use mc_prototype.Agent.Fetch.{Files, FetchResult, fetch_any}
use mc_prototype.Agent.Discovery.{Candidate}
use mc_prototype.Agent.Execution.{
  Config, Outside, Action, claimed, waited, beating, cancelled, fetched, ran, reported, crashed,
  wants_input, work_dir,
}

-- The reports among the actions.
abbrev pub reports : List Action → List (Request FinishIn)
reports [] = []
reports (reported url r ∷ rest) = r ∷ reports rest
reports (claimed url r ∷ rest) = reports rest
reports (waited url ∷ rest) = reports rest
reports (beating token ∷ rest) = reports rest
reports (cancelled ∷ rest) = reports rest
reports (fetched root providers ∷ rest) = reports rest
reports (ran image command ∷ rest) = reports rest
reports (crashed ∷ rest) = reports rest

abbrev pub copies : ℕ → Request FinishIn → List (Request FinishIn)
copies zero r = []
copies (suc n) r = r ∷ copies n r

abbrev pub is_done {ℓ} : {A : Type ℓ} → Attempt A → Bool
is_done (done a) = true
is_done (error e) = false
is_done crash = false

abbrev pub exits_zero : Attempt RunResult → Bool
exits_zero (done r) = eq_ℤ 0 r.exit_code
exits_zero (error e) = false
exits_zero crash = false

module _ (n : Network) (ns : String) (manifests : Codec n.Bytes Manifest)
    (metas : Codec n.Bytes TaskMeta) (cfg : Config) (o : Outside) (c : Candidate) where
  -- The actions report one body under a lease, `k` times, and as a success exactly where `completed`.
  abbrev pub Reports : Lease → Bool → List Action → Type 0
  Reports l completed actions =
      (k : ℕ) × (body : FinishIn) × (reports actions
        ≡ copies k (finish_request cfg.token c.job_id cfg.agent_id l.version body))
      × (0 < k)
      × (k ≤ max_finish_retries)
      × (lower_is body.status "succeeded" ≡ completed)

  abbrev pub run_exits_zero : TaskMeta → Bool
  run_exits_zero meta =
      exits_zero (run_in_container o.machine (work_dir c.job_id) meta.image meta.command)

  abbrev pub fetch_input : Manifest → Files → Files × Attempt FetchResult
  fetch_input man fs =
      fetch_any o.wire o.disk man.root_cid (file_join (work_dir c.job_id) "input") man.providers fs

  abbrev pub prepared : Manifest → Files → Bool
  prepared man fs = not (wants_input man) || is_done (fetch_input man fs).1

  -- The document, the input and the run that a success takes.
  abbrev pub is_complete : Files → Node n → Bool
  is_complete fs nd =
      let (nd1, man, found) = get_json n ns manifests nd (key_manifest c.job_id) no_manifest in
      let (nd2, meta, there) = get_json n ns metas nd1 (key_meta c.job_id) no_meta in
      not (not found || str_eq man.root_cid "")
      && (there && (prepared man fs && run_exits_zero meta))
