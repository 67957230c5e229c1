-- ===== src/Control/Releases.antt =====
-- releaseHandler, forceRequeueHandler and debugLeaseHandler of cmd/control/control_http.go.
pub mod Laws
pub mod Statements
use mc_prototype.Base.{
  ℕ, String, Option, none, some, Bool, not, ◌&&◌, ◌||◌, str_eq, true, false, if◌then◌else◌, suc64,
}
use mc_prototype.Dht.Network.{Network}
use mc_prototype.Dht.Json.{Node, put_json, get_json, del_json}
use mc_prototype.Task.Types.{Lease, TaskState, queued, no_state, no_lease, is_active}
use mc_prototype.Task.Keys.{key_state, key_lease}
use mc_prototype.Text.{trim_prefix, trim_suffix}
use mc_prototype.Control.World.{Codecs, World, empty, ok_true, lease_view, text, Response, reply}
use mc_prototype.Control.Requests.{Env, Request, require_auth, path_parts, four_parts}
use mc_prototype.Control.Announce.{enqueue}

pub record ReleaseIn : Type 0 where
  pub agent_id : String
  pub nonce : String

-- The state document of a job that goes back to the queue.
unfoldable pub queued_state : ℕ → TaskState → TaskState
queued_state now st = record st {
  status = queued;
  assigned_to = "";
  updated_at = now;
  version = suc64 st.version;
}

-- `st.ID != "" && (st.AssignedTo == in.AgentID || assigned || running)`
unfoldable pub is_taken : String → TaskState → Bool
is_taken agent st = not (str_eq st.id "") && (str_eq st.assigned_to agent || is_active st.status)

module _ (n : Network) (ns : String) (c : Codecs n.Bytes) where
  -- The DHT after a release.
  release_state : String → String → ℕ → Node n × TaskState × Bool → Node n
  unfolding queued_state is_taken
  release_state id agent now (nd, st, _) =
      if is_taken agent st
      then (put_json n ns c.state nd (key_state id) (queued_state now st)).0
      else nd

  unfoldable pub release_mirror : String → String → ℕ → Node n → Node n
  unfolding release_state
  release_mirror id agent now nd =
      let nd1 = (del_json n ns nd (key_lease id)).0 in
      release_state id agent now (get_json n ns c.state nd1 (key_state id) no_state)

  release_read : String → ReleaseIn → ℕ → World n → Node n × Lease × Bool → World n × Response
  unfolding release_mirror
  release_read id i now w (nd, cur, ok) =
      if not ok || str_eq cur.owner ""
      then (record w { node = nd }, reply 404 (text "no lease"))
      else if not (str_eq cur.owner i.agent_id) || not (str_eq cur.nonce i.nonce)
      then (record w { node = nd }, reply 403 (text "forbidden"))
      else (record w { node = release_mirror id i.agent_id now nd }, reply 200 ok_true)

  release_body : ℕ → World n → Option ReleaseIn → Option String → World n × Response
  unfolding release_read
  release_body now w body none = (w, reply 400 (text "bad path"))
  release_body now w none (some id) = (w, reply 400 (text "bad json"))
  release_body now w (some i) (some id) =
      release_read id i now w (get_json n ns c.lease w.node (key_lease id) no_lease)

  unfoldable pub release_handler : Env → ℕ → Request ReleaseIn → World n → World n × Response
  unfolding release_body
  release_handler env now r w =
      if not (require_auth env r)
      then (w, reply 401 (text "unauthorized"))
      else release_body now w r.body (four_parts "api" "tasks" "release" (path_parts r))

  requeue_put : String → World n → Node n × Bool → World n × Response
  requeue_put id w (nd, false) = (record w { node = nd }, reply 500 (text "put state failed"))
  requeue_put id w (nd, true) =
      (record w { node = nd; manager = enqueue id w.manager }, reply 204 empty)

  requeue_read : String → ℕ → World n → Node n × TaskState × Bool → World n × Response
  unfolding requeue_put queued_state
  requeue_read id now w (nd, st, ok) =
      if not ok || str_eq st.id ""
      then (record w { node = nd }, reply 404 (text "state not found"))
      else requeue_put id w (
          put_json n ns c.state (del_json n ns nd (key_lease id)).0 (key_state id)
            (queued_state now st))

  unfoldable pub force_requeue_handler : Env → ℕ → Request (Unit {0}) → World n → World n × Response
  unfolding requeue_read
  force_requeue_handler env now r w =
      let id = trim_suffix (trim_prefix r.path "/internal/requeue/") "/force-requeue" in
      if not (require_auth env r)
      then (w, reply 401 (text "unauthorized"))
      else if not (str_eq r.method "POST")
      then (w, reply 405 (text "method not allowed"))
      else requeue_read id now w (get_json n ns c.state w.node (key_state id) no_state)

  unfoldable pub debug_lease_handler : Env → Request (Unit {0}) → World n → World n × Response
  debug_lease_handler env r w =
      let id = trim_suffix (trim_prefix r.path "/internal/tasks/") "/lease" in
      let (nd1, st, _) = get_json n ns c.state w.node (key_state id) no_state in
      let (nd2, le, _) = get_json n ns c.lease nd1 (key_lease id) no_lease in
      if not (require_auth env r)
      then (w, reply 401 (text "unauthorized"))
      else (record w { node = nd2 }, reply 200 (lease_view st le))
