-- ===== src/Control/Releases/Laws.antt =====
-- What releaseHandler does to the job table and to the DHT, over a document store that is a map.
use mc_prototype.Base.{
  ℕ, ◌≡◌, ◌≢◌, ◌⊎◌, inl, inr, refl, ap, ◌∙◌, String, [], ◌∷◌, Option, some, true, arith, eq_iff,
  str_ne,
}
use mc_prototype.Dht.Network.{Network}
use mc_prototype.Dht.Json.{Node, get_json, del_json}
use mc_prototype.Dht.Json.Medium.{IsMap}
use mc_prototype.Dht.Json.Documents.{
  get_json_found, read_doc, holds_get_json, holds_put_json, put_json_doc, del_json_doc,
}
use mc_prototype.Task.Types.{Lease, TaskState, no_state, no_lease}
use mc_prototype.Task.Keys.{key_state, key_lease}
use mc_prototype.Task.Keys.Laws.{lease_ne_state, state_ne_lease}
use mc_prototype.Task.Types.{queued}
use mc_prototype.Base.{suc64}
use mc_prototype.Control.World.{Codecs, AreFaithful, World, text, ok_true, reply}
use mc_prototype.Control.Requests.{Env, Request, require_auth, path_parts, four_parts}
use mc_prototype.Control.Releases.{
  ReleaseIn, queued_state, is_taken, release_state, release_mirror, release_read, release_body,
  release_handler,
}

-- A request that gets past the handler's checks.
pub record Accepted (env : Env) (r : Request ReleaseIn) (id : String) (i : ReleaseIn) : Type 0 where
  pub auth : require_auth env r ≡ true
  pub parts : path_parts r ≡ "api" ∷ "tasks" ∷ id ∷ "release" ∷ []
  pub decoded : r.body ≡ some i

module _ (n : Network) (ns : String) (c : Codecs n.Bytes) where
  Accepted-runs :
      (env : Env) (now : ℕ) (r : Request ReleaseIn) (id : String) (i : ReleaseIn) (w : World n)
      → Accepted env r id i
      → release_handler n ns c env now r w
        ≡ release_read n ns c id i now w (get_json n ns c.lease w.node (key_lease id) no_lease)
  unfolding release_handler release_body
  Accepted-runs env now r id i w a =
      ground (arith, a.auth, ap (four_parts "api" "tasks" "release") a.parts, a.decoded)

module _ (n : Network) (ns : String) (c : Codecs n.Bytes) (holds : Node n → String → Option n.Bytes)
    (m : IsMap n ns holds) (f : AreFaithful n.tombstone c) where
  -- The lease document of the job reads as `l`.
  abbrev pub Leased : String → Lease → Node n → Type 0
  Leased id l nd = read_doc c.lease no_lease (holds nd (key_lease id)) ≡ (l, true)

  release_read_mine :
      (id : String) (i : ReleaseIn) (now : ℕ) (w : World n) (nd : Node n) (l : Lease)
      → l.owner ≡ i.agent_id
      → l.nonce ≡ i.nonce
      → l.owner ≢ ""
      → release_read n ns c id i now w (nd, l, true)
        ≡ (record w { node = release_mirror n ns c id i.agent_id now nd }, reply 200 ok_true)
  unfolding release_read
  release_read_mine id i now w nd l o k e =
      ground (arith, str_ne l.owner "" e, eq_iff l.owner i.agent_id, eq_iff l.nonce i.nonce)

  release_mirror_docs :
      (id agent : String) (now : ℕ) (nd : Node n) (st : TaskState)
      → read_doc c.state no_state (holds nd (key_state id)) ≡ (st, true)
      → is_taken agent st ≡ true
      → ((read_doc c.lease no_lease
            (holds (release_mirror n ns c id agent now nd) (key_lease id))).0
          ≡ no_lease)
        × (read_doc c.state no_state (holds (release_mirror n ns c id agent now nd) (key_state id))
            ≡ (queued_state now st, true))
  unfolding release_mirror release_state
  release_mirror_docs id agent now nd st h t =
      rw
        (
          get_json_found n ns holds m c.state nd1 (key_state id) no_state st (
              ap (read_doc c.state no_state)
                (m.holds_del nd (key_lease id) (key_state id) (lease_ne_state ns id))
              ∙ h),
          t,
        )
        (
          ap (λ (o : Option n.Bytes). (read_doc c.lease no_lease o).0)
                (holds_put_json n ns holds m c.state nd2 (key_state id) (queued_state now st)
                    (key_lease id) (state_ne_lease ns id)
                  ∙ holds_get_json n ns holds m c.state nd1 (key_state id) no_state (key_lease id))
              ∙ del_json_doc n ns holds m c.lease nd (key_lease id) no_lease f.lease,
          (put_json_doc n ns holds m c.state nd2 (key_state id) no_state (queued_state now st)
              f.state).1,
        )
    where
      nd1 : Node n
      nd1 = (del_json n ns nd (key_lease id)).0

      nd2 : Node n
      nd2 = (get_json n ns c.state nd1 (key_state id) no_state).0

  -- Over a DHT that is a map: an accepted release by the owner, of a job that is taken there, is
  -- answered with 200; the DHT has no lease of the job any more, and its state there is queued; but
  -- the table, which decides on claims, is as it was.
  pub release_reopens_mirror_only :
      (env : Env) (now : ℕ) (r : Request ReleaseIn) (id : String) (i : ReleaseIn) (w : World n)
      (l : Lease) (st : TaskState)
      → Accepted env r id i
      → Leased id l w.node
      → l.owner ≡ i.agent_id
      → l.nonce ≡ i.nonce
      → l.owner ≢ ""
      → read_doc c.state no_state (holds w.node (key_state id)) ≡ (st, true)
      → is_taken i.agent_id st ≡ true
      → let (w', response) = release_handler n ns c env now r w in
        (response ≡ reply 200 ok_true)
        × (w'.table ≡ w.table)
        × ((read_doc c.lease no_lease (holds w'.node (key_lease id))).0 ≡ no_lease)
        × (read_doc c.state no_state (holds w'.node (key_state id)) ≡ (
          record st {
            status = queued;
            assigned_to = "";
            updated_at = now;
            version = suc64 st.version;
          },
          true,
        ))
  unfolding queued_state
  release_reopens_mirror_only env now r id i w l st a h o k e x t =
      rw
        (
          Accepted-runs n ns c env now r id i w a,
          get_json_found n ns holds m c.lease w.node (key_lease id) no_lease l h,
          release_read_mine id i now w nd l o k e,
        )
        (refl, refl, released.0, released.1)
    where
      nd : Node n
      nd = (get_json n ns c.lease w.node (key_lease id) no_lease).0

      there : read_doc c.state no_state (holds nd (key_state id)) ≡ (st, true)
      there =
          ap (read_doc c.state no_state)
            (holds_get_json n ns holds m c.lease w.node (key_lease id) no_lease (key_state id))
          ∙ x

      released :
          ((read_doc c.lease no_lease
              (holds (release_mirror n ns c id i.agent_id now nd) (key_lease id))).0
            ≡ no_lease)
          × (read_doc c.state no_state
                (holds (release_mirror n ns c id i.agent_id now nd) (key_state id))
              ≡ (queued_state now st, true))
      released = release_mirror_docs id i.agent_id now nd st there t

  release_read_foreign :
      (id : String) (i : ReleaseIn) (now : ℕ) (w : World n) (nd : Node n) (l : Lease)
      → (l.owner ≢ i.agent_id) ⊎ (l.nonce ≢ i.nonce)
      → l.owner ≢ ""
      → release_read n ns c id i now w (nd, l, true)
        ≡ (record w { node = nd }, reply 403 (text "forbidden"))
  unfolding release_read
  release_read_foreign id i now w nd l (inl o) e =
      ground (arith, str_ne l.owner "" e, str_ne l.owner i.agent_id o)
  release_read_foreign id i now w nd l (inr o) e =
      ground (arith, str_ne l.owner "" e, str_ne l.nonce i.nonce o)

  -- A release by another agent, or with another nonce, is answered with 403, and neither the table
  -- nor any document changes.
  pub foreign_release :
      (env : Env) (now : ℕ) (r : Request ReleaseIn) (id : String) (i : ReleaseIn) (w : World n)
      (l : Lease) (key : String)
      → Accepted env r id i
      → Leased id l w.node
      → (l.owner ≢ i.agent_id) ⊎ (l.nonce ≢ i.nonce)
      → l.owner ≢ ""
      → let (w', response) = release_handler n ns c env now r w in
        (response ≡ reply 403 (text "forbidden"))
        × (w'.table ≡ w.table)
        × (holds w'.node key ≡ holds w.node key)
  foreign_release env now r id i w l key a h o e =
      rw
        (
          Accepted-runs n ns c env now r id i w a,
          get_json_found n ns holds m c.lease w.node (key_lease id) no_lease l h,
          release_read_foreign id i now w nd l o e,
        )
        (refl, refl, holds_get_json n ns holds m c.lease w.node (key_lease id) no_lease key)
    where
      nd : Node n
      nd = (get_json n ns c.lease w.node (key_lease id) no_lease).0
