-- ===== src/Agent/Execution.antt =====
-- onCandidate of cmd/agent/main.go: from a candidate to the report of its end. The model returns the
-- agent's actions in their order; the heartbeats that a goroutine sends meanwhile are in
-- Agent.Heartbeats. WaitForManifest stands as the action `waited`: its result is only logged, and how
-- long it takes is in Agent.Waiting.
pub mod Laws
pub mod Kept
use Prim.Native.String.{◌++◌}
use mathlib.Core.List.{List, [], ◌∷◌, ◌++◌ as append}
use mc_prototype.Base.{
  ℕ, zero, suc, ◌/◌, ℤ, pos, negsuc, eq_ℤ, String, Option, none, some, Bool, true, false, not, ◌&&◌,
  ◌||◌, str_eq, if◌then◌else◌,
}
use mc_prototype.Text.{lower_is}
use mc_prototype.Text.Decimal.{format_uint}
use mc_prototype.Text.Clean.{file_join}
use mc_prototype.Dht.Network.{Network, Codec}
use mc_prototype.Dht.Json.{Node, get_json}
use mc_prototype.Task.Types.{Lease, Manifest, no_manifest, TaskMeta, no_meta, Provider}
use mc_prototype.Task.Keys.{key_manifest, key_meta}
use mc_prototype.Lease.Types.{Metrics}
use mc_prototype.Control.Requests.{Request}
use mc_prototype.Control.Claims.{TryClaimIn}
use mc_prototype.Control.Finishes.{FinishIn}
use mc_prototype.Agent.Attempt.{Attempt, done, error, crash}
use mc_prototype.Agent.Client.{Answer, claim_request, finish_request, read_lease, report_finish}
use mc_prototype.Agent.Container.{Machine, RunResult, run_in_container}
use mc_prototype.Agent.Fetch.{Wire, Disk, Files, FetchResult, fetch_any, size}
use mc_prototype.Agent.Discovery.{Candidate}

pub record Config : Type 0 where
  pub control_url : String
  pub token : String
  pub agent_id : String
  pub ttl : ℤ

-- What happens outside: the reply to the claim, the calls of the libraries, and the replies to the reports.
pub record Outside : Type 0 where
  pub claim : Answer
  pub wire : Wire
  pub disk : Disk
  pub machine : Machine
  pub finish : ℕ → Answer

pub data Action : Type 0 where
  claimed : String → Request TryClaimIn → Action
  -- WaitForManifest at a URL, for Agent.Waiting.max_wait at most; its result is only logged.
  waited : String → Action
  -- The start of the goroutine of heartbeats, with the token that they send, and cancelJob, which ends
  -- it unless it ended by itself after three failures in a row.
  beating : ℤ → Action
  cancelled : Action
  fetched : String → List Provider → Action
  ran : String → List String → Action
  reported : String → Request FinishIn → Action
  -- The process ends by a panic.
  crashed : Action

format_int : ℤ → String
format_int (pos n) = format_uint n
format_int (negsuc n) = "-" ++ format_uint (suc n)

unfoldable pub failure : Option String → String → FinishIn
failure reason stage = record {
  status = "failed";
  metrics = some (record { reason = reason; others = ("error_stage", stage) ∷ [] });
  artifacts = none;
  result_cid = "";
}

abbrev pub millisecond : ℕ
millisecond = 1000000

metrics_of : RunResult → Metrics
unfolding format_int
metrics_of r = record {
  reason = none;
  others =
      ("exit_code", format_int r.exit_code)
      ∷ ("duration_ms", format_uint (r.duration / millisecond))
      ∷ ("stdout_bytes", format_uint (size r.stdout))
      ∷ ("stderr_bytes", format_uint (size r.stderr))
      ∷ [];
}

-- The report of a run; its error text is not used by the server.
unfoldable pub run_report : Attempt RunResult → FinishIn
unfolding metrics_of
run_report (done r) = record {
  status = if eq_ℤ 0 r.exit_code then "succeeded" else "failed";
  metrics = some (metrics_of r);
  artifacts = none;
  result_cid = "";
}
run_report _ = record {
  status = "failed";
  metrics = some (record { reason = none; others = [] });
  artifacts = none;
  result_cid = "";
}

repeated : ℕ → Action → List Action
repeated zero a = []
repeated (suc n) a = a ∷ repeated n a

-- `!strings.EqualFold(man.RootCID, "noop") && len(man.Providers) > 0`
abbrev pub wants_input : Manifest → Bool
wants_input man = not (lower_is man.root_cid "noop" || no_providers man.providers)
  where
    no_providers : List Provider → Bool
    no_providers [] = true
    no_providers (p ∷ ps) = false

abbrev pub work_dir : String → String
work_dir id = "./work/" ++ id

abbrev pub base_url : Config → Candidate → String
base_url cfg c = if str_eq c.demand_url "" then cfg.control_url else c.demand_url

module _ (n : Network) (ns : String) (manifests : Codec n.Bytes Manifest)
    (metas : Codec n.Bytes TaskMeta) (cfg : Config) (o : Outside) (c : Candidate) where
  report : Lease → FinishIn → Action
  report l body =
      reported (base_url cfg c) (finish_request cfg.token c.job_id cfg.agent_id l.version body)

  -- A report that is sent once, before the heartbeats end.
  give_up : Lease → FinishIn → List Action
  unfolding report
  give_up l body = report l body ∷ cancelled ∷ []

  execute : Lease → TaskMeta → List Action
  unfolding report repeated
  execute l meta =
      let result = run_in_container o.machine (work_dir c.job_id) meta.image meta.command in
      ran meta.image meta.command
      ∷ cancelled
      ∷ repeated (report_finish o.finish).0 (report l (run_report result))

  with_input : Lease → Manifest → TaskMeta → Attempt FetchResult → List Action
  unfolding execute give_up
  with_input l man meta (error e) = give_up l (failure none "fetch_input")
  with_input l man meta crash = crashed ∷ []
  with_input l man meta (done _) = execute l meta

  with_meta : Lease → Manifest → Files → Node n × TaskMeta × Bool → Node n × Files × List Action
  unfolding with_input
  with_meta l man fs (nd, meta, false) = (nd, fs, give_up l (failure none "get_meta"))
  with_meta l man fs (nd, meta, true) =
      let (fs', got) =
        fetch_any o.wire o.disk man.root_cid (file_join (work_dir c.job_id) "input") man.providers
          fs in
      if wants_input man
      then (nd, fs', fetched man.root_cid man.providers ∷ with_input l man meta got)
      else (nd, fs, execute l meta)

  with_manifest : Lease → Files → Node n × Manifest × Bool → Node n × Files × List Action
  unfolding with_meta
  with_manifest l fs (nd, man, found) =
      if not found || str_eq man.root_cid ""
      then (nd, fs, give_up l (failure (some "manifest_not_found") "manifest_check"))
      else with_meta l man fs (get_json n ns metas nd (key_meta c.job_id) no_meta)

  granted : Files → Node n → Option Lease → Node n × Files × List Action
  unfolding with_manifest
  granted fs nd none = (nd, fs, [])
  granted fs nd (some l) =
      let (nd', fs', actions) =
        with_manifest l fs (get_json n ns manifests nd (key_manifest c.job_id) no_manifest) in
      (nd', fs', waited cfg.control_url ∷ beating l.version ∷ actions)

  unfoldable pub on_candidate : Files → Node n → Node n × Files × List Action
  unfolding granted
  on_candidate fs nd =
      let (nd', fs', actions) = granted fs nd (read_lease o.claim) in
      (
        nd',
        fs',
        claimed (base_url cfg c) (claim_request cfg.token c.job_id cfg.agent_id cfg.ttl) ∷ actions,
      )
