-- ===== src/Control/Releases/Statements.antt =====
-- The table after releaseHandler, forceRequeueHandler and debugLeaseHandler.
use mc_prototype.Base.{
  ℕ, ◌≡◌, refl, String, Option, none, some, Bool, true, false, not, ◌||◌, Bool-cases, inl, inr,
  str_eq,
}
use mc_prototype.Dht.Network.{Network}
use mc_prototype.Dht.Json.{Node, put_json, get_json, del_json}
use mc_prototype.Task.Types.{Lease, TaskState, no_lease, no_state}
use mc_prototype.Task.Keys.{key_state, key_lease}
use mc_prototype.Text.{trim_prefix, trim_suffix}
use mc_prototype.Control.World.{Codecs, World}
use mc_prototype.Control.Requests.{Env, Request, require_auth, path_parts, four_parts}
use mc_prototype.Control.Releases.{
  ReleaseIn, queued_state, release_read, release_body, release_handler, requeue_put, requeue_read,
  force_requeue_handler, debug_lease_handler,
}

module _ (n : Network) (ns : String) (c : Codecs n.Bytes) where
  release_read_table :
      (id : String) (i : ReleaseIn) (now : ℕ) (w : World n) (nd : Node n) (l : Lease) (there : Bool)
      → (release_read n ns c id i now w (nd, l, there)).0.table ≡ w.table
  unfolding release_read
  release_read_table id i now w nd l there = elim (Bool-cases (not there || str_eq l.owner "")) [
    | inl e ↦ rw e refl
    | inr e ↦ elim (Bool-cases (not (str_eq l.owner i.agent_id) || not (str_eq l.nonce i.nonce))) [
      | inl f ↦ rw (e, f) refl
      | inr f ↦ rw (e, f) refl
    ]
  ]

  release_body_table :
      (now : ℕ) (w : World n) (body : Option ReleaseIn) (id : Option String)
      → (release_body n ns c now w body id).0.table ≡ w.table
  unfolding release_body
  release_body_table now w none none = refl
  release_body_table now w (some i) none = refl
  release_body_table now w none (some id) = refl
  release_body_table now w (some i) (some id) =
      let (nd, l, there) = get_json n ns c.lease w.node (key_lease id) no_lease in
      release_read_table id i now w nd l there

  pub release_handler_table :
      (env : Env) (now : ℕ) (r : Request ReleaseIn) (w : World n)
      → (release_handler n ns c env now r w).0.table ≡ w.table
  unfolding release_handler
  release_handler_table env now r w = elim (Bool-cases (require_auth env r)) [
    | inr e ↦ rw e refl
    | inl e ↦
        rw e (release_body_table now w r.body (four_parts "api" "tasks" "release" (path_parts r)))
  ]

  requeue_put_table :
      (id : String) (w : World n) (nd : Node n) (put : Bool)
      → (requeue_put n ns c id w (nd, put)).0.table ≡ w.table
  unfolding requeue_put
  requeue_put_table id w nd true = refl
  requeue_put_table id w nd false = refl

  requeue_read_table :
      (id : String) (now : ℕ) (w : World n) (nd : Node n) (st : TaskState) (there : Bool)
      → (requeue_read n ns c id now w (nd, st, there)).0.table ≡ w.table
  unfolding requeue_read
  requeue_read_table id now w nd st there =
      let (nd', put) =
        put_json n ns c.state (del_json n ns nd (key_lease id)).0 (key_state id)
          (queued_state now st) in
      elim (Bool-cases (not there || str_eq st.id "")) [
        | inl e ↦ rw e refl
        | inr e ↦ rw e (requeue_put_table id w nd' put)
      ]

  pub force_requeue_handler_table :
      (env : Env) (now : ℕ) (r : Request (Unit {0})) (w : World n)
      → (force_requeue_handler n ns c env now r w).0.table ≡ w.table
  unfolding force_requeue_handler
  force_requeue_handler_table env now r w =
      let id = trim_suffix (trim_prefix r.path "/internal/requeue/") "/force-requeue" in
      let (nd, st, there) = get_json n ns c.state w.node (key_state id) no_state in
      elim (Bool-cases (require_auth env r)) [
        | inr e ↦ rw e refl
        | inl e ↦ elim (Bool-cases (str_eq r.method "POST")) [
          | inr f ↦ rw (e, f) refl
          | inl f ↦ rw (e, f) (requeue_read_table id now w nd st there)
        ]
      ]

  pub debug_lease_handler_table :
      (env : Env) (r : Request (Unit {0})) (w : World n)
      → (debug_lease_handler n ns c env r w).0.table ≡ w.table
  unfolding debug_lease_handler
  debug_lease_handler_table env r w = elim (Bool-cases (require_auth env r)) [
    | inl e ↦ rw e refl
    | inr e ↦ rw e refl
  ]
