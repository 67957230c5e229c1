-- ===== src/Agent/Client.antt =====
-- The requests of pkg/agent/claim.go and finish_client.go, and what the agent makes of the replies.
-- net/http delivers a request as it was built, its path included where the job's id needs no
-- escaping, and a handler's status and body as they were written.
pub mod Laws
pub mod Cycle
pub mod Retries
use Prim.Native.String.{◌++◌}
use mc_prototype.Base.{
  ℕ, zero, suc, ◌/◌, ◌*◌, String, List, Option, none, some, Bool, ◌==◌, ◌||◌, leb, str_eq, ℤ, pos,
  negsuc, if◌then◌else◌, is_positive, to_ℕ,
}
use mc_prototype.Text.{contains}
use mc_prototype.Text.Decimal.{format_uint}
use mc_prototype.Task.Types.{Lease, no_lease}
use mc_prototype.Lease.Types.{second, Metrics}
use mc_prototype.Control.World.{Body, Response, reply, panicked, claimed, claim_refused, ok_true}
use mc_prototype.Control.Requests.{Request}
use mc_prototype.Control.Claims.{TryClaimIn}
use mc_prototype.Control.Heartbeats.{HeartbeatIn}
use mc_prototype.Control.Releases.{ReleaseIn}
use mc_prototype.Control.Finishes.{FinishIn}

-- An error of http.Client.Do with its text, or a status and a body.
pub data Answer : Type 0 where
  failed : String → Answer
  answered : ℕ → Body → Answer

-- What the client gets of a handler's response; net/http closes the connection on a panic, which the
-- client reports as the error `e`.
abbrev pub delivered : String → Response → Answer
delivered e panicked = failed e
delivered e (reply status body) = answered status body

-- `if c.Token != "" { req.Header.Set("Authorization", "Bearer "+c.Token) }`
unfoldable pub authorization : String → String
authorization token = if str_eq token "" then "" else "Bearer " ++ token

abbrev pub post : {A : Type 0} → String → String → String → String → A → Request A
post token path agent lease_token body = record {
  method = "POST";
  path = path;
  authorization = authorization token;
  agent_header = agent;
  token_header = lease_token;
  query_limit = "";
  query_offset = "";
  query_token = "";
  body = some body;
}

minus : ℕ → ℤ
minus zero = pos 0
minus (suc n) = negsuc n

-- int(ttl.Seconds()) of a duration in nanoseconds, which Go cuts off towards 0.
unfoldable pub seconds_of : ℤ → ℤ
unfolding minus
seconds_of (pos n) = pos (n / second)
seconds_of (negsuc n) = minus (suc n / second)

unfoldable pub claim_request : String → String → String → ℤ → Request TryClaimIn
claim_request token id agent ttl =
    post token (("/api/tasks/" ++ id) ++ "/try-claim") "" ""
      (record { agent_id = agent; ttl_sec = seconds_of ttl })

unfoldable pub heartbeat_request : String → String → String → String → ℤ → ℤ → Request HeartbeatIn
heartbeat_request token id agent nonce ttl version =
    post token (("/api/tasks/" ++ id) ++ "/heartbeat") "" "" (record {
      agent_id = agent;
      nonce = nonce;
      ttl_sec = seconds_of ttl;
      lease_version = version;
    })

unfoldable pub release_request : String → String → String → String → Request ReleaseIn
release_request token id agent nonce =
    post token (("/api/tasks/" ++ id) ++ "/release") "" ""
      (record { agent_id = agent; nonce = nonce })

-- `if leaseToken > 0 { req.Header.Set("X-Lease-Token", fmt.Sprintf("%d", leaseToken)) }`
unfoldable pub lease_header : ℤ → String
lease_header version = if is_positive version then format_uint (to_ℕ version) else ""

unfoldable pub finish_request : String → String → String → ℤ → FinishIn → Request FinishIn
unfolding lease_header
finish_request token id agent version body =
    post token (("/jobs/" ++ id) ++ "/finish") agent (lease_header version) body

-- `{"ok": ..., "lease": ...}` of a reply with the status 2xx; another body is no such JSON, or has no
-- "ok".
reply_lease : Body → Option Lease
reply_lease (claimed l) = some l
reply_lease ok_true = some no_lease
reply_lease _ = none

-- What TryClaim and Heartbeat return, `none` for any error.
unfoldable pub read_lease : Answer → Option Lease
unfolding reply_lease
read_lease (failed e) = none
read_lease (answered status body) = if status / 100 == 2 then reply_lease body else none

-- Why a finish failed, if it did.
unfoldable pub finish_error : Answer → Option String
finish_error (failed e) = some ("finish http request failed: " ++ e)
finish_error (answered status body) =
    if leb 500 status
    then some ("finish http server error: " ++ format_uint status)
    else if leb 400 status
    then some ("finish http client error: " ++ format_uint status)
    else none

-- ShouldRetryFinish.
unfoldable pub should_retry_finish : String → Bool
should_retry_finish message =
    contains message "connection refused"
    || (contains message "timeout" || contains message "server error")

-- `maxFinishRetries` rounds of the loop around Report: `answers i` is what attempt `i` meets, and
-- `last` is lastErr. The result is the number of attempts made and lastErr at the end.
unfoldable pub report_rounds : ℕ → ℕ → (ℕ → Answer) → Option String → ℕ × Option String
report_rounds zero i answers last = (i, last)
report_rounds (suc left) i answers last = elim (finish_error (answers i)) [
  | none ↦ (suc i, none)
  | some e ↦
      let rest = report_rounds left (suc i) answers (some e) in
      if should_retry_finish e then rest else (suc i, some e)
]

abbrev pub max_finish_retries : ℕ
max_finish_retries = 20

unfoldable pub report_finish : (ℕ → Answer) → ℕ × Option String
unfolding report_rounds
report_finish answers = report_rounds max_finish_retries 0 answers none
