-- ===== src/Agent/Client/Laws.antt =====
-- The requests of pkg/agent at the checks of the server's handlers.
use Prim.Native.String.{◌++◌}
use text.Mathlib.TextLemmas.{append_assoc}
use mc_prototype.Base.{
  ℕ, ◌<◌, ◌≡◌, ◌≢◌, refl, ◌∙◌, String, [], ◌∷◌, true, arith, eq_iff, eq_refl, str_ne, ℤ, int64,
  int64_limit, str_eq, false,
}
use mc_prototype.Text.Decimal.{parse_uint-format_uint, format_uint, format_uint-ne-nil}
use mc_prototype.Text.Paths.{no_slash, join, split-trim_slashes-join}
use mc_prototype.Control.Requests.{
  Env, Request, require_auth, path_parts, header_token, heartbeat_token,
}
use mc_prototype.Control.Finishes.{FinishIn}
use mc_prototype.Control.Claims.Laws as ClaimLaws
use mc_prototype.Control.Heartbeats.Laws as HeartbeatLaws
use mc_prototype.Control.Finishes.Laws as FinishLaws
use mc_prototype.Agent.Client.{
  authorization, seconds_of, claim_request, heartbeat_request, finish_request, lease_header,
}

-- The agent has the server's token.
pub record Trusted (env : Env) (token : String) : Type 0 where
  pub same : env.control_token ≡ token
  pub set : token ≢ ""

authorized :
    {A : Type 0} (env : Env) (token : String) (r : Request A)
    → Trusted env token
    → r.authorization ≡ authorization token
    → require_auth env r ≡ true
unfolding require_auth authorization
authorized env token r t e = ground (
  arith,
  t.same,
  str_ne token "" t.set,
  eq_iff env.disable_auth "1",
  eq_refl ("Bearer " ++ token),
  e,
)

api_path :
    (id z : String)
    → ("/api/tasks/" ++ id) ++ ("/" ++ z) ≡ "/" ++ join ("api" ∷ "tasks" ∷ id ∷ z ∷ [])
unfolding join
api_path id z =
    append_assoc "/api/tasks/" id ("/" ++ z)
    ∙ append_assoc "/api/tasks" "/" (id ++ ("/" ++ z))
    ∙ append_assoc "/api/" "tasks" ("/" ++ (id ++ ("/" ++ z)))
    ∙ append_assoc "/api" "/" ("tasks" ++ ("/" ++ (id ++ ("/" ++ z))))
    ∙ append_assoc "/" "api" ("/" ++ ("tasks" ++ ("/" ++ (id ++ ("/" ++ z)))))

job_path : (id z : String) → ("/jobs/" ++ id) ++ ("/" ++ z) ≡ "/" ++ join ("jobs" ∷ id ∷ z ∷ [])
unfolding join
job_path id z =
    append_assoc "/jobs/" id ("/" ++ z)
    ∙ append_assoc "/jobs" "/" (id ++ ("/" ++ z))
    ∙ append_assoc "/" "jobs" ("/" ++ (id ++ ("/" ++ z)))

literal_ne : (s t : String) → str_eq s t ≡ false → s ≢ t
literal_ne s t h e = ground (arith, eq_iff s t)

-- The last segment is one of the literals of the agent's paths.
abbrev Verb : String → Type 0
Verb z = (no_slash z ≡ true) × (str_eq z "" ≡ false)

api_parts :
    {A : Type 0} (r : Request A) (id z : String)
    → no_slash id ≡ true
    → Verb z
    → r.path ≡ ("/api/tasks/" ++ id) ++ ("/" ++ z)
    → path_parts r ≡ "api" ∷ "tasks" ∷ id ∷ z ∷ []
unfolding path_parts
api_parts r id z h v e =
    rw (e, api_path id z)
      (split-trim_slashes-join "api" ("tasks" ∷ id ∷ z ∷ [])
        (unfold no_slash in (refl, (refl, (h, (v.0, tt))))) (literal_ne "api" "" refl)
        (literal_ne z "" v.1))

job_parts :
    {A : Type 0} (r : Request A) (id z : String)
    → no_slash id ≡ true
    → Verb z
    → r.path ≡ ("/jobs/" ++ id) ++ ("/" ++ z)
    → path_parts r ≡ "jobs" ∷ id ∷ z ∷ []
unfolding path_parts
job_parts r id z h v e =
    rw (e, job_path id z)
      (split-trim_slashes-join "jobs" (id ∷ z ∷ []) (unfold no_slash in (refl, (h, (v.0, tt))))
        (literal_ne "jobs" "" refl) (literal_ne z "" v.1))

module _ (env : Env) (token id agent : String) (trusted : Trusted env token)
    (plain : no_slash id ≡ true) where
  pub claim_request-Accepted :
      (ttl : ℤ)
      → agent ≢ ""
      → ClaimLaws.Accepted env
          (claim_request token id agent ttl)
          id
          (record { agent_id = agent; ttl_sec = seconds_of ttl })
  unfolding claim_request
  claim_request-Accepted ttl named = record {
    auth = authorized env token (claim_request token id agent ttl) trusted refl;
    parts =
        api_parts (claim_request token id agent ttl) id "try-claim" plain
          (unfold no_slash in (refl, refl)) refl;
    decoded = refl;
    named = named;
  }

  -- The token of a lease, sent as lease_version, is the token that heartbeatHandler takes.
  pub heartbeat_request-Accepted :
      (nonce : String) (ttl : ℤ) (k : ℕ)
      → 0 < k
      → k < int64_limit
      → HeartbeatLaws.Accepted env
          (heartbeat_request token id agent nonce ttl (int64 k))
          id
          (record {
            agent_id = agent;
            nonce = nonce;
            ttl_sec = seconds_of ttl;
            lease_version = int64 k;
          })
          k
  unfolding heartbeat_request heartbeat_token
  heartbeat_request-Accepted nonce ttl k positive small = record {
    auth = authorized env token (heartbeat_request token id agent nonce ttl (int64 k)) trusted refl;
    parts =
        api_parts (heartbeat_request token id agent nonce ttl (int64 k)) id "heartbeat" plain
          (unfold no_slash in (refl, refl)) refl;
    decoded = refl;
    sent = ground arith;
    present = λ e. omega arith;
  }

  pub finish_request-Accepted :
      (version : ℤ) (i : FinishIn)
      → FinishLaws.Accepted env (finish_request token id agent version i) id i
  unfolding finish_request
  finish_request-Accepted version i = record {
    auth = authorized env token (finish_request token id agent version i) trusted refl;
    post = refl;
    parts =
        job_parts (finish_request token id agent version i) id "finish" plain
          (unfold no_slash in (refl, refl)) refl;
    decoded = refl;
  }

-- The token of a lease, from 1 on and below 2^63, written into X-Lease-Token, is the token that
-- finishHandler reads.
pub header_token-lease_header :
    (k : ℕ) → 0 < k → k < int64_limit → header_token (lease_header (int64 k)) ≡ k
unfolding header_token lease_header
header_token-lease_header k positive small =
    ground (arith, parse_uint-format_uint k, format_uint-ne-nil k, eq_iff (format_uint k) "")
