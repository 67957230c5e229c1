-- ===== src/Agent/Tests/Runs.antt =====
-- The agent's client, its heartbeats and its fetches at concrete inputs.
use mathlib.Core.List.{List, [], ◌∷◌}
use mc_prototype.Base.{
  ℕ, zero, suc, ◌<◌, ◌≡◌, ◌≢◌, refl, String, Option, none, some, Bool, true, arith, eq_iff, pos,
  inr, str_eq, ◌||◌, if◌then◌else◌,
}
use mc_prototype.Text.Clean.{file_join, clean}
use mc_prototype.Text.{split, has_prefix, contains}
use mc_prototype.Text.Paths.{join}
use mc_prototype.Task.Types.{Provider, no_lease}
use mc_prototype.Control.World.{empty, claimed}
use mc_prototype.Control.Requests.{ttl_or_default}
use mc_prototype.Seeder.{Source, seed_handler}
use mc_prototype.Agent.Attempt.{done}
use mc_prototype.Agent.Client.{
  Answer, answered, failed, finish_error, report_finish, should_retry_finish, seconds_of,
}
use mc_prototype.Agent.Client.Retries.{report_finish_ends, Retried, Final}
use mc_prototype.Agent.Heartbeats.{heartbeat_every, seconds}
use mc_prototype.Agent.Heartbeats.Laws.{heartbeat_every_bounds}
use mc_prototype.Agent.Fetch.{Wire, Disk, file, link, fetch_any, dial}
use mc_prototype.Agent.Fetch.Laws.{Writable, fetch_any-seed_handler, missing_file_fetched}

-- The server cannot be reached twice, and then answers.
abbrev flaky : ℕ → Answer
flaky zero = failed "connection refused"
flaky (suc zero) = failed "connection refused"
flaky (suc (suc k)) = answered 204 empty

flaky-Retried : (k : ℕ) → k < 2 → Retried flaky k
unfolding finish_error should_retry_finish contains has_prefix
flaky-Retried zero h = ("finish http request failed: connection refused", refl, refl)
flaky-Retried (suc zero) h = ("finish http request failed: connection refused", refl, refl)
flaky-Retried (suc (suc k)) h = absurd (omega arith)

flaky-Final : Final flaky 2
unfolding finish_error
flaky-Final e h = ground (arith, h)

report_finish_ends_example : report_finish flaky ≡ (3, finish_error (flaky 2))
report_finish_ends_example =
    report_finish_ends 2 flaky (omega arith) flaky-Retried (inr flaky-Final)

abbrev replies : List Answer
replies =
    failed "EOF"
    ∷ answered 200 (claimed no_lease)
    ∷ failed "EOF"
    ∷ failed "EOF"
    ∷ failed "EOF"
    ∷ failed "EOF"
    ∷ []

heartbeat_every_bounds_example :
    (every : ℕ) × (heartbeat_every (pos 15) (pos 20) ≡ pos every)
    × (0 < every)
    × (every < ttl_or_default (seconds_of (seconds (pos 15))))
heartbeat_every_bounds_example =
    heartbeat_every_bounds 15 20 (omega arith) (omega arith) (omega arith) (omega arith)

abbrev far : Provider
far = record { peer_id = "p1"; addrs = "/ip4/10.0.0.1" ∷ []; relays = []; caps = [] }

abbrev pub near : Provider
near = record { peer_id = "p2"; addrs = "/ip4/10.0.0.2" ∷ []; relays = []; caps = [] }

abbrev pub seed : (String → Option (String × Bool)) → Source
seed files = record { base = "./inputs"; files = files; flushed = λ s. "" }

abbrev pub only_near : String → Option String
only_near id = if str_eq id "p2" then none else some "timed out"

abbrev pub wire : Bool → Source → Wire
wire ids src = record {
  is_multiaddr = λ s. ids || has_prefix s "/ip4/";
  addr_info = λ a id. none;
  connect = only_near;
  new_stream = λ id. none;
  send = λ id root. none;
  receive = λ id root. (seed_handler src (some root), none);
}

abbrev pub disk : Disk
disk = record {
  mkdir_all = λ p. none;
  create = λ p. none;
  rename = λ p q. none;
  symlink = λ p q. none;
  copied = λ s. s;
}

cid_set : ◌≢◌ {A = String} "cid" ""
cid_set = ground (arith, eq_iff "cid" "")

cid_not_input : ◌≢◌ {A = String} "cid" "input"
cid_not_input = ground (arith, eq_iff "cid" "input")

apart : ◌≢◌ {A = String} "work/cid" "work/input"
apart = ground (arith, eq_iff "work/cid" "work/input")

writable : Writable disk "cid" "work"
unfolding file_join clean split join has_prefix
writable = record {
  made = refl;
  created = refl;
  renamed = refl;
  linked = refl;
  apart = apart;
  outside = refl;
}

abbrev pub stocked : Source
stocked = seed (λ p. some ("picture", true))

abbrev bare : Source
bare = seed (λ p. none)

fetch_any-seed_handler_example :
    let (fs, r) = fetch_any (wire true stocked) disk "cid" "work" (far ∷ near ∷ []) (λ p. none) in
    (r ≡ done (record { local_path = file_join "work" "cid"; bytes = 7 }))
    × (fs (file_join "work" "cid") ≡ some (file "picture"))
    × (fs (file_join "work" "input") ≡ some (link "cid"))
unfolding dial has_prefix
fetch_any-seed_handler_example =
    fetch_any-seed_handler (wire true stocked) disk "cid" "work" stocked (far ∷ []) near []
      (λ p. none) "picture" (("connect: timed out", refl), tt) refl refl refl cid_set cid_not_input
      writable

missing_file_fetched_example :
    let (fs, r) =
      fetch_any (wire true bare) disk "cid" "work" (far ∷ near ∷ far ∷ []) (λ p. none) in
    (r ≡ done (record { local_path = file_join "work" "cid"; bytes = 0 }))
    × (fs (file_join "work" "cid") ≡ some (file ""))
unfolding dial has_prefix
missing_file_fetched_example =
    missing_file_fetched (wire true bare) disk "cid" "work" bare (far ∷ []) near (far ∷ [])
      (λ p. none) (("connect: timed out", refl), tt) refl refl refl cid_not_input writable
