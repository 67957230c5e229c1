-- ===== src/Agent/Waiting.antt =====
-- WaitForManifest of pkg/agent/wait_manifest.go, whose result onCandidate only logs.
pub mod Laws
use mathlib.Core.List.{List, [], ◌∷◌}
use mc_prototype.Base.{
  true, false, Option, none, some, Bool, not, ◌&&◌, str_eq, ◌==◌, if◌then◌else◌, ℕ, ltb, ◌*◌,
}
use mc_prototype.Task.Types.{Manifest, Provider}
use mc_prototype.Lease.Types.{second}
use mc_prototype.Control.World.{Body, job}
use mc_prototype.Agent.Client.{Answer, failed, answered}

has_providers : List Provider → Bool
has_providers [] = false
has_providers (p ∷ ps) = true

shown_manifest : Body → Option Manifest
shown_manifest (job j man) = man
shown_manifest _ = none

complete : Option Manifest → Option Manifest
unfolding has_providers
complete none = none
complete (some man) =
    if not (str_eq man.root_cid "") && has_providers man.providers then some man else none

-- What one reply to GET /api/tasks/{id} is worth.
unfoldable pub ready_manifest : Answer → Option Manifest
unfolding shown_manifest complete
ready_manifest (failed e) = none
ready_manifest (answered status body) =
    if status == 200 then complete (shown_manifest body) else none

-- What is waited for at most after a claim.
abbrev pub max_wait : ℕ
max_wait = 15 * second

-- The polls, each with the clock after its reply: what is returned, nil where the deadline has passed,
-- and when; `none` where the polls are used up. The context of the caller is never cancelled.
unfoldable pub wait_for_manifest : ℕ → List (Answer × ℕ) → Option (Option Manifest × ℕ)
wait_for_manifest deadline [] = none
wait_for_manifest deadline ((a, now) ∷ polls) =
    let rest = wait_for_manifest deadline polls in
    elim (ready_manifest a) [
      | some man ↦ some (some man, now)
      | none ↦ if ltb deadline now then some (none, now) else rest
    ]
