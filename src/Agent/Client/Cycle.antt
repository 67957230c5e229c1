-- ===== src/Agent/Client/Cycle.antt =====
-- A job's life between the agent and the server: claimed, kept by a heartbeat, and finished.
use mc_prototype.Base.{
  ℕ, ◌+◌, ◌<◌, ◌≡◌, ◌≢◌, refl, ap, ◌∙◌, String, List, Option, none, some, true, arith, ℤ, int64,
  int64_limit, All,
}
use mc_prototype.Text.Paths.{no_slash}
use mc_prototype.Dht.Network.{Network}
use mc_prototype.Dht.Json.{Node}
use mc_prototype.Dht.Json.Medium.{IsMap}
use mc_prototype.Lease.Types.{Lease, succeeded, failed}
use mc_prototype.Task.Types as Task
use mc_prototype.Text.{lower_is}
use mc_prototype.Base.{if◌then◌else◌}
use mc_prototype.Lease.Table.{Row, find_row}
use mc_prototype.Lease.Update.{after_seconds, claim_guard, finish_change, finish_guard}
use mc_prototype.Lease.Store.{at, ClaimTurns}
use mc_prototype.Lease.Store.Claims.{try_claim_free}
use mc_prototype.Lease.History.{Call, run, exec, claims}
use mc_prototype.Lease.Held.{IsHeld, Undisturbed, run-IsHeld, heartbeat_guard_own, finish_guard_own}
use mc_prototype.Control.World.{Codecs, AreFaithful, World, reply, empty, ok_true}
use mc_prototype.Control.Requests.{Env, ttl_or_default}
use mc_prototype.Control.Claims.{try_claim_handler}
use mc_prototype.Control.Claims.Laws.{claim_grants}
use mc_prototype.Control.Heartbeats.{heartbeat_handler}
use mc_prototype.Control.Heartbeats.Laws.{heartbeat_renews}
use mc_prototype.Control.Finishes.{FinishIn, outcome_of, finish_handler}
use mc_prototype.Control.Finishes.Laws.{finish_completes}
use mc_prototype.Agent.Client.{
  delivered, seconds_of, claim_request, heartbeat_request, finish_request, read_lease, finish_error,
}
use mc_prototype.Agent.Client.Laws.{
  Trusted, claim_request-Accepted, heartbeat_request-Accepted, finish_request-Accepted,
  header_token-lease_header,
}
use mc_prototype.Text.Paths.{is_segment, is_segment-no_slash}

module _ (n : Network) (ns : String) (c : Codecs n.Bytes) (holds : Node n → String → Option n.Bytes)
    (m : IsMap n ns holds) (f : AreFaithful n.tombstone c) where
  module _ (env : Env) (token id agent : String) (trusted : Trusted env token)
      (plain : no_slash id ≡ true) (k : ℕ) (positive : 0 < k) (small : k < int64_limit) where
    -- The holder's finish, as the agent sends it.
    held_finish :
        (s now : ℕ) (w : World n) (r : Row) (expiry : ℕ) (i : FinishIn)
        → find_row id w.table ≡ some r
        → IsHeld agent k expiry r
        → let (w', response) =
            finish_handler n ns c env (at s) now (finish_request token id agent (int64 k) i) w in
          (response ≡ reply 204 empty)
          × (find_row id w'.table ≡ some (finish_change (outcome_of i) r))
    unfolding finish_request finish_change
    held_finish s now w r expiry i found held =
        let done =
          finish_completes n ns c holds m f env s now (finish_request token id agent (int64 k) i) id
            i w r (finish_request-Accepted env token id agent trusted plain (int64 k) i) found
            (ap (λ x. finish_guard agent x r) (header_token-lease_header k positive small)
              ∙ finish_guard_own agent k expiry r held small) in
        (done.0, done.1 ∙ ground arith)

    -- The holder's heartbeat, as the agent sends it.
    held_heartbeat :
        (s now : ℕ) (w : World n) (r : Row) (expiry : ℕ) (nonce : String) (ttl : ℤ)
        → find_row id w.table ≡ some r
        → IsHeld agent k expiry r
        → (heartbeat_handler n ns c env
            (at s)
            now
            (heartbeat_request token id agent nonce ttl (int64 k))
            w).1
          ≡ reply 200 ok_true
    held_heartbeat s now w r expiry nonce ttl found held =
        (heartbeat_renews n ns c holds m f env s now
          (heartbeat_request token id agent nonce ttl (int64 k)) id
          (record {
            agent_id = agent;
            nonce = nonce;
            ttl_sec = seconds_of ttl;
            lease_version = int64 k;
          })
          k w r
          (heartbeat_request-Accepted env token id agent trusted plain nonce ttl k positive small)
          found (heartbeat_guard_own agent k expiry r held small)).0

  -- Over a DHT that is a map, where the database answers, and with the server's token, which is not
  -- empty: when an agent with an id claims a free job, whose id is a plain segment of a path and whose next token is
  -- below 2^63, it reads a lease from the reply, which is its own and ends the asked time after the
  -- database's instant. After any further statements in which other agents do what they like, the
  -- holder does not finish the job or shorten the lease, and requeues run no later than its expiry, the
  -- agent's heartbeat under the version of the lease that it read is answered with 200; and its finish
  -- under that version in the same state is reported without an error, and leaves the row succeeded or
  -- failed as was reported, and without a lease.
  pub lease_cycle :
      (env : Env) (token id agent e : String) (ttl : ℤ) (turns : ClaimTurns) (s now : ℕ)
      (w : World n) (row : Row) (cs : List (ℕ × Call)) (w2 : World n) (s2 now2 : ℕ) (nonce : String)
      (i : FinishIn)
      → Trusted env token
      → is_segment id ≡ true
      → agent ≢ ""
      → turns.update ≡ at s
      → find_row id w.table ≡ some row
      → claim_guard s row ≡ true
      → row.lease_token + 1 < int64_limit
      → let k = row.lease_token + 1 in
        let expiry = after_seconds s (ttl_or_default (seconds_of ttl)) in
        let (w1, granted) =
          try_claim_handler n ns c env turns now (claim_request token id agent ttl) w in
        w2.table ≡ run cs w1.table
        → All (Undisturbed id agent expiry) cs
        → ((l : Task.Lease) × (read_lease (delivered e granted) ≡ some l)
            × (l.owner ≡ agent)
            × (l.expires ≡ expiry)
            × ((heartbeat_handler n ns c env
                  (at s2)
                  now2
                  (heartbeat_request token id agent nonce ttl l.version)
                  w2).1
                ≡ reply 200 ok_true)
            × (let (w3, finished) =
                  finish_handler n ns c env
                    (at s2)
                    now2
                    (finish_request token id agent l.version i)
                    w2 in
                (finish_error (delivered e finished) ≡ none)
                × ((r : Row) × (find_row id w3.table ≡ some r)
                    × (r.status ≡ (if lower_is i.status "succeeded" then succeeded else failed))
                    × (r.lease_agent ≡ none)
                    × (r.lease_expires_at ≡ none))))
  unfolding read_lease finish_error finish_change
  lease_cycle env token id agent e ttl turns s now w row cs w2 s2 now2 nonce i t segment named u h g
        small same quiet =
      let plain = is_segment-no_slash id segment in
      let k = row.lease_token + 1 in
      let asked = ttl_or_default (seconds_of ttl) in
      let l : Lease = record {
        agent_id = agent;
        expire_at = after_seconds s asked;
        fencing_token = k;
      } in
      let granted =
        claim_grants n ns c holds m f env turns s now (claim_request token id agent ttl) id
          (record { agent_id = agent; ttl_sec = seconds_of ttl }) w row
          (claim_request-Accepted env token id agent t plain ttl named) u h g in
      let (r, found, held) =
        run-IsHeld turns id agent asked w.table (exec s (claims id agent asked) w.table) l cs
          (try_claim_free s turns id agent asked w.table u h g) quiet in
      let there = ap (find_row id) (same ∙ ap (run cs) granted.1) ∙ found in
      let done =
        held_finish env token id agent t plain k (omega arith) small s2 now2 w2 r l.expire_at i
          there held in
      (
        record { owner = agent; nonce = ""; expires = l.expire_at; version = int64 k },
        ap (λ x. read_lease (delivered e x)) granted.0,
        refl,
        refl,
        held_heartbeat env token id agent t plain k (omega arith) small s2 now2 w2 r l.expire_at
            nonce ttl there held,
        (
          ap (λ x. finish_error (delivered e x)) done.0,
          (finish_change (outcome_of i) r, done.1, ground arith, refl, refl),
        ),
      )
