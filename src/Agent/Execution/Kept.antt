-- ===== src/Agent/Execution/Kept.antt =====
-- When onCandidate fetches and runs, and the heartbeats around it.
use mathlib.Core.List.{List, [], ◌∷◌}
use mc_prototype.Base.{
  ℕ, zero, suc, ◌≡◌, refl, String, none, some, Bool, true, false, not, ◌&&◌, ◌||◌, str_eq,
  Option-cases, Bool-cases, inl, inr,
}
use mc_prototype.Text.Clean.{file_join}
use mc_prototype.Dht.Network.{Network, Codec}
use mc_prototype.Dht.Json.{Node, get_json}
use mc_prototype.Task.Types.{Lease, Manifest, no_manifest, TaskMeta, no_meta}
use mc_prototype.Task.Keys.{key_manifest, key_meta}
use mc_prototype.Control.Requests.{Request}
use mc_prototype.Control.Finishes.{FinishIn}
use mc_prototype.Agent.Attempt.{Attempt, done, error, crash}
use mc_prototype.Agent.Client.{finish_request, report_finish, read_lease}
use mc_prototype.Agent.Container.{run_in_container}
use mc_prototype.Agent.Fetch.{Files, FetchResult, fetch_any}
use mc_prototype.Agent.Discovery.{Candidate}
use mc_prototype.Agent.Execution.{
  Config, Outside, Action, claimed, waited, beating, cancelled, fetched, ran, reported, crashed,
  run_report, repeated, wants_input, work_dir, base_url, on_candidate, with_input, with_meta,
  with_manifest, granted, execute, give_up, report, failure,
}
use mc_prototype.Base.{List, ◌∷◌, some}
use mc_prototype.Agent.Client.{claim_request}
use mc_prototype.Agent.Execution.{waited}

-- Fetching and running happen between the start of the goroutine of heartbeats and cancelJob; a panic
-- ends all.
abbrev pub is_kept : Bool → List Action → Bool
is_kept beats [] = not beats
is_kept beats (reported url r ∷ rest) = is_kept beats rest
is_kept beats (claimed url r ∷ rest) = is_kept beats rest
is_kept beats (waited url ∷ rest) = is_kept beats rest
is_kept beats (beating token ∷ rest) = not beats && is_kept true rest
is_kept beats (cancelled ∷ rest) = beats && is_kept false rest
is_kept beats (fetched root providers ∷ rest) = beats && is_kept beats rest
is_kept beats (ran image command ∷ rest) = beats && is_kept beats rest
is_kept beats (crashed ∷ rest) = true

kept-repeated :
    (k : ℕ) (url : String) (r : Request FinishIn)
    → is_kept false (repeated k (reported url r)) ≡ true
unfolding repeated
kept-repeated zero url r = refl
kept-repeated (suc k) url r = kept-repeated k url r

module _ (n : Network) (ns : String) (manifests : Codec n.Bytes Manifest)
    (metas : Codec n.Bytes TaskMeta) (cfg : Config) (o : Outside) (c : Candidate) where
  execute_kept :
      (l : Lease) (meta : TaskMeta)
      → is_kept true (execute n ns manifests metas cfg o c l meta) ≡ true
  unfolding execute report
  execute_kept l meta = kept-repeated (report_finish o.finish).0 (base_url cfg c) (
      finish_request cfg.token c.job_id cfg.agent_id l.version
        (run_report (run_in_container o.machine (work_dir c.job_id) meta.image meta.command)))

  give_up_kept :
      (l : Lease) (body : FinishIn)
      → is_kept true (give_up n ns manifests metas cfg o c l body) ≡ true
  unfolding give_up report
  give_up_kept l body = refl

  with_input_kept :
      (l : Lease) (man : Manifest) (meta : TaskMeta) (got : Attempt FetchResult)
      → is_kept true (with_input n ns manifests metas cfg o c l man meta got) ≡ true
  unfolding with_input
  with_input_kept l man meta (error e) = give_up_kept l (failure none "fetch_input")
  with_input_kept l man meta crash = refl
  with_input_kept l man meta (done r) = execute_kept l meta

  with_meta_kept :
      (l : Lease) (man : Manifest) (fs : Files) (nd : Node n) (meta : TaskMeta) (there : Bool)
      → is_kept true (with_meta n ns manifests metas cfg o c l man fs (nd, meta, there)).2 ≡ true
  unfolding with_meta
  with_meta_kept l man fs nd meta false = give_up_kept l (failure none "get_meta")
  with_meta_kept l man fs nd meta true = elim (Bool-cases (wants_input man)) [
    | inl e ↦ rw e (
        with_input_kept l man meta
          (fetch_any o.wire o.disk man.root_cid (file_join (work_dir c.job_id) "input")
            man.providers fs).1)
    | inr e ↦ rw e (execute_kept l meta)
  ]

  with_manifest_kept :
      (l : Lease) (fs : Files) (nd : Node n) (man : Manifest) (found : Bool)
      → is_kept true (with_manifest n ns manifests metas cfg o c l fs (nd, man, found)).2 ≡ true
  unfolding with_manifest
  with_manifest_kept l fs nd man found =
      let (nd', meta, there) = get_json n ns metas nd (key_meta c.job_id) no_meta in
      elim (Bool-cases (not found || str_eq man.root_cid "")) [
        | inl e ↦ rw e (give_up_kept l (failure (some "manifest_not_found") "manifest_check"))
        | inr e ↦ rw e (with_meta_kept l man fs nd' meta there)
      ]

  -- Whatever happens, input is fetched and the container runs only after the goroutine of heartbeats was
  -- started and before its context is cancelled by cancelJob, and where it was started, cancelJob is
  -- called, unless a panic ends the agent. The goroutine may have ended by itself before, after three
  -- failures in a row.
  pub on_candidate_kept :
      (fs : Files) (nd : Node n)
      → is_kept false (on_candidate n ns manifests metas cfg o c fs nd).2 ≡ true
  unfolding on_candidate
  on_candidate_kept fs nd = elim (Option-cases (read_lease o.claim)) [
    | inl e ↦ rw (e, granted) refl
    | inr (l, e) ↦
        let (nd', man, found) = get_json n ns manifests nd (key_manifest c.job_id) no_manifest in
        rw (e, granted) (with_manifest_kept l fs nd' man found)
  ]

-- onCandidate waits after its claim, and before it starts the heartbeats.
pub waits_first :
    (n : Network) (ns : String) (manifests : Codec n.Bytes Manifest)
    (metas : Codec n.Bytes TaskMeta) (cfg : Config) (o : Outside) (cand : Candidate) (fs : Files)
    (nd : Node n) (l : Lease)
    → read_lease o.claim ≡ some l
    → (rest : List Action) × ((on_candidate n ns manifests metas cfg o cand fs nd).2
        ≡ claimed (base_url cfg cand) (claim_request cfg.token cand.job_id cfg.agent_id cfg.ttl)
          ∷ waited cfg.control_url
          ∷ beating l.version
          ∷ rest)
unfolding on_candidate granted
waits_first n ns manifests metas cfg o cand fs nd l reads = rw reads (_, refl)
