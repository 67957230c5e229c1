-- ===== src/Control/Routes/Laws.antt =====
-- Where mountHTTP leads the agent's requests, and finishes under /api/jobs.
use Prim.Native.String.{[], ◌∷◌, ◌++◌}
use package.text.Mathlib.TextLemmas.{append_assoc}
use mc_prototype.Base.{
  ℕ, ◌≡◌, ◌≢◌, refl, ap, ◌∙◌, String, true, false, arith, eq_iff, str_eq, Bool-cases, inl, inr, ℤ,
}
use mc_prototype.Text.{has_prefix}
use mc_prototype.Text.Affixes.{
  ends_apart, has_prefix-append, has_suffix-append, has_suffix-append-false,
  has_prefix-append-false, apart, last,
}
use mc_prototype.Control.Routes.{
  try_claim, heartbeat, release, finish, task_route, job_route, route,
}
use mathlib.Core.List.{[], ◌∷◌}
use mc_prototype.Text.Paths.{no_slash, join, split-trim_slashes-join}
use mc_prototype.Dht.Network.{Network}
use mc_prototype.Lease.Store.{Turn}
use mc_prototype.Control.World.{Codecs, World, reply, text}
use mc_prototype.Control.Requests.{Env, Request, require_auth, path_parts, three_parts}
use mc_prototype.Control.Finishes.{FinishIn, finish_handler}
use mc_prototype.Control.Finishes.Laws.{finish_handler_bad_path}
use mc_prototype.Agent.Client.{claim_request, heartbeat_request, release_request, finish_request}
use mc_prototype.Text.Paths.{is_segment, is_segment-no_slash}

not_this_path :
    (path prefix other : String)
    → has_prefix path prefix ≡ true
    → has_prefix other prefix ≡ false
    → str_eq path other ≡ false
not_this_path path prefix other h k = elim (Bool-cases (str_eq path other)) [
  | inl e ↦
      let same = ap (λ p. has_prefix p prefix) ((eq_iff path other).0 e) in
      ground (arith, h, k, same)
  | inr e ↦ e
]

task_path :
    (id z : String)
    → let path = ("/api/tasks/" ++ id) ++ z in route "POST" path ≡ task_route "POST" path
unfolding route has_prefix apart
task_path id z =
    let path = ("/api/tasks/" ++ id) ++ z in
    let here : has_prefix path "/api/tasks/" ≡ true =
      rw (append_assoc "/api/tasks/" id z) (has_prefix-append "/api/tasks/" (id ++ z)) in
    rw
      (
        not_this_path path "/api/tasks/" "/api/health" here refl,
        not_this_path path "/api/tasks/" "/api/tasks" here refl,
        here,
      )
      refl

job_path : (id z : String) → let path = ("/jobs/" ++ id) ++ z in route "POST" path ≡ job_route path
unfolding route has_prefix apart
job_path id z =
    let path = ("/jobs/" ++ id) ++ z in
    let here : has_prefix path "/jobs/" ≡ true =
      rw (append_assoc "/jobs/" id z) (has_prefix-append "/jobs/" (id ++ z)) in
    let elsewhere : has_prefix path "/api/tasks/" ≡ false =
      rw (append_assoc "/jobs/" id z)
        (has_prefix-append-false "/jobs/" "/api/tasks/" (id ++ z) refl) in
    rw
      (
        not_this_path path "/jobs/" "/api/health" here refl,
        not_this_path path "/jobs/" "/api/tasks" here refl,
        elsewhere,
        not_this_path path "/jobs/" "/api/stats/tasks" here refl,
        here,
      )
      refl

-- The agent's requests for a job whose id is a plain segment of a path (not empty, `.` or `..`, and
-- without a slash, ?, #, % or control characters), with the paths that it builds, are routed to the
-- handlers of claims, heartbeats, releases and finishes.
pub agent_requests_routed :
    (token id agent nonce : String) (ttl version : ℤ) (i : FinishIn)
    → is_segment id ≡ true
    → let claim = claim_request token id agent ttl in
      let beat = heartbeat_request token id agent nonce ttl version in
      let leave = release_request token id agent nonce in
      let end = finish_request token id agent version i in
      (route claim.method claim.path ≡ try_claim)
      × (route beat.method beat.path ≡ heartbeat)
      × (route leave.method leave.path ≡ release)
      × (route end.method end.path ≡ finish)
unfolding claim_request heartbeat_request release_request finish_request task_route job_route last
agent_requests_routed token id agent nonce ttl version i plain =
    let s = "/api/tasks/" ++ id in
    let j = "/jobs/" ++ id in
    (
      task_path id "/try-claim" ∙ ground (arith, has_suffix-append s "/try-claim"),
      task_path id "/heartbeat"
          ∙ ground (
            arith,
            has_suffix-append-false s "/" "/" "heartbeat" "try-claim" (ends_apart "t" "m" refl),
            has_suffix-append s "/heartbeat",
          ),
      task_path id "/release"
          ∙ ground (
            arith,
            has_suffix-append-false s "/" "/" "release" "try-claim" (ends_apart "e" "m" refl),
            has_suffix-append-false s "/" "/" "release" "heartbeat" (ends_apart "e" "t" refl),
            has_suffix-append s "/release",
          ),
      job_path id "/finish"
          ∙ ground (
            arith,
            has_suffix-append-false j "/" "/" "finish" "manifest" (ends_apart "h" "t" refl),
            has_suffix-append j "/finish",
          ),
    )

api_job_path : (id : String) → route "POST" (("/api/jobs/" ++ id) ++ "/finish") ≡ finish
unfolding route has_prefix apart
api_job_path id =
    let path = ("/api/jobs/" ++ id) ++ "/finish" in
    let here : has_prefix path "/api/jobs/" ≡ true =
      rw (append_assoc "/api/jobs/" id "/finish")
        (has_prefix-append "/api/jobs/" (id ++ "/finish")) in
    let not_task : has_prefix path "/api/tasks/" ≡ false =
      rw (append_assoc "/api/jobs/" id "/finish")
        (has_prefix-append-false "/api/jobs/" "/api/tasks/" (id ++ "/finish") refl) in
    let not_job : has_prefix path "/jobs/" ≡ false =
      rw (append_assoc "/api/jobs/" id "/finish")
        (has_prefix-append-false "/api/jobs/" "/jobs/" (id ++ "/finish") refl) in
    rw
      (
        not_this_path path "/api/jobs/" "/api/health" here refl,
        not_this_path path "/api/jobs/" "/api/tasks" here refl,
        not_task,
        not_this_path path "/api/jobs/" "/api/stats/tasks" here refl,
        not_job,
        here,
        has_suffix-append ("/api/jobs/" ++ id) "/finish",
      )
      refl

api_job_parts :
    (r : Request FinishIn) (id : String)
    → no_slash id ≡ true
    → r.path ≡ ("/api/jobs/" ++ id) ++ "/finish"
    → path_parts r ≡ "api" ∷ "jobs" ∷ id ∷ "finish" ∷ []
unfolding path_parts join no_slash
api_job_parts r id plain e =
    let whole : ("/api/jobs/" ++ id) ++ "/finish"
        ≡ "/" ++ join ("api" ∷ "jobs" ∷ id ∷ "finish" ∷ []) =
      append_assoc "/api/jobs/" id ("/" ++ "finish")
      ∙ append_assoc "/api/jobs" "/" (id ++ ("/" ++ "finish"))
      ∙ append_assoc "/api/" "jobs" ("/" ++ (id ++ ("/" ++ "finish")))
      ∙ append_assoc "/api" "/" ("jobs" ++ ("/" ++ (id ++ ("/" ++ "finish"))))
      ∙ append_assoc "/" "api" ("/" ++ ("jobs" ++ ("/" ++ (id ++ ("/" ++ "finish"))))) in
    rw (e, whole)
      (split-trim_slashes-join "api" ("jobs" ∷ id ∷ "finish" ∷ [])
        (refl, (refl, (plain, (refl, tt)))) (not_empty "api" refl) (not_empty "finish" refl))
  where
    not_empty : (s : String) → str_eq s "" ≡ false → s ≢ ""
    not_empty s h same = ground (arith, eq_iff s "")

-- mountHTTP leads a finish that is posted to /api/jobs/{id}/finish, where the id is a plain segment of a
-- path (not empty, `.` or `..`, and without a slash, ?, #, % or control characters), to finishHandler,
-- which refuses it: with a token that is accepted, it is answered with 400 and changes
-- nothing.
pub api_finish_refused :
    (n : Network) (ns : String) (c : Codecs n.Bytes) (env : Env) (turn : Turn) (now : ℕ)
    (r : Request FinishIn) (id : String) (w : World n)
    → require_auth env r ≡ true
    → r.method ≡ "POST"
    → is_segment id ≡ true
    → r.path ≡ ("/api/jobs/" ++ id) ++ "/finish"
    → (route r.method r.path ≡ finish)
      × (finish_handler n ns c env turn now r w ≡ (w, reply 400 (text "bad path")))
unfolding route has_prefix apart
api_finish_refused n ns c env turn now r id w auth post plain e = (
  rw (post, e) (api_job_path id),
  finish_handler_bad_path n ns c env turn now r w auth post
      (ap (three_parts "jobs" "finish") (api_job_parts r id (is_segment-no_slash id plain) e)),
)
