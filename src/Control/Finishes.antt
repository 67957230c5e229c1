-- ===== src/Control/Finishes.antt =====
-- finishHandler of cmd/control/control_http.go.
pub mod Laws
pub mod Statements
use mc_prototype.Base.{
  ℕ, String, List, Option, none, some, Bool, true, false, not, suc64, str_eq, if◌then◌else◌,
}
use mc_prototype.Dht.Network.{Network}
use mc_prototype.Dht.Json.{Node, put_json, get_json, del_json}
use mc_prototype.Task.Types.{TaskState, TaskStatus, succeeded, failed, no_state}
use mc_prototype.Task.Keys.{key_state, key_lease, key_task_ad, key_p2p_manifest_mirror}
use mc_prototype.Text.{lower_is}
use mc_prototype.Lease.Types.{Metrics, Result, ok, err}
use mc_prototype.Lease.Update.{Outcome}
use mc_prototype.Lease.Store.{Turn, finish}
use mc_prototype.Control.World.{Codecs, World, empty, text, Response, reply}
use mc_prototype.Control.Requests.{
  Env, Request, require_auth, path_parts, three_parts, header_token,
}

-- The member `error` is decoded and not used.
pub record FinishIn : Type 0 where
  pub status : String
  pub metrics : Option Metrics
  pub artifacts : Option (List String)
  pub result_cid : String

abbrev pub outcome_of : FinishIn → Outcome
outcome_of i = record {
  succeeded = lower_is i.status "succeeded";
  result_cid = i.result_cid;
  artifacts = i.artifacts;
  metrics = i.metrics;
}

abbrev pub final_status : Bool → TaskStatus
final_status true = succeeded
final_status false = failed

unfoldable pub finish_state : Bool → ℕ → TaskState → TaskState
finish_state done now st = record st {
  status = final_status done;
  updated_at = now;
  finished_at = some now;
  version = suc64 st.version;
}

module _ (n : Network) (ns : String) (c : Codecs n.Bytes) where
  -- The DHT after a finish: the final state, and no lease, ad and mirror.
  pub finish_mirror : String → Bool → ℕ → Node n → Node n
  unfolding finish_state
  finish_mirror id done now nd =
      let (nd1, st, _) = get_json n ns c.state nd (key_state id) no_state in
      let nd2 = (put_json n ns c.state nd1 (key_state id) (finish_state done now st)).0 in
      let nd3 = (del_json n ns nd2 (key_lease id)).0 in
      let nd4 = (del_json n ns nd3 (key_task_ad ns id)).0 in
      (del_json n ns nd4 (key_p2p_manifest_mirror id)).0

  on_finish : String → Bool → ℕ → World n → Result (Unit {0}) → World n × Response
  on_finish id done now w (err e) = (w, reply 409 (text "finish failed"))
  on_finish id done now w (ok _) =
      (record w { node = finish_mirror id done now w.node }, reply 204 empty)

  finish_body :
      Turn → ℕ → World n → String → String → Option FinishIn → Option String → World n × Response
  unfolding on_finish
  finish_body turn now w agent header body none = (w, reply 400 (text "bad path"))
  finish_body turn now w agent header none (some id) = (w, reply 400 (text "bad json"))
  finish_body turn now w agent header (some i) (some id) =
      let (t, r) = finish turn id agent (header_token header) (outcome_of i) w.table in
      on_finish id (outcome_of i).succeeded now (record w { table = t }) r

  unfoldable pub finish_handler : Env → Turn → ℕ → Request FinishIn → World n → World n × Response
  unfolding finish_body
  finish_handler env turn now r w =
      if not (require_auth env r)
      then (w, reply 401 (text "unauthorized"))
      else if not (str_eq r.method "POST")
      then (w, reply 405 (text "method not allowed"))
      else finish_body turn now w r.agent_header r.token_header r.body
          (three_parts "jobs" "finish" (path_parts r))
