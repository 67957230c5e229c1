-- ===== src/Lease/Statements.antt =====
-- The methods of PGStore as histories of statements.
use mc_prototype.Base.{
  ℕ, ◌≡◌, refl, sym, ap, subst, ◌∙◌, String, List, [], ◌∷◌, ◌++◌, All, All-append, inl, inr,
}
use mc_prototype.Lease.Types.{DbJob, Manifest, queued}
use mc_prototype.Lease.Table.{Table}
use mc_prototype.Lease.Update.{Outcome}
use mc_prototype.Lease.Store.{
  Turn, at, down, lost, ClaimTurns, create_job, attach_manifest, run_write, claim_update, try_claim,
  heartbeat, finish, set_status_queued,
}
use mc_prototype.Lease.Store.Claims.{try_claim_table}
use mc_prototype.Lease.History.{
  Call, creates, attaches, claims, beats, finishes, requeues, exec, run,
}
use mc_prototype.Lease.Invariant.{CreatesQueued, Consistent, run-Consistent}

-- A table that results from another by statements that create jobs as queued only.
pub record IsHistory (t t' : Table) : Type 0 where
  pub calls : List (ℕ × Call)
  pub queued : All CreatesQueued calls
  pub runs : t' ≡ run calls t

run-append : (cs ds : List (ℕ × Call)) (t : Table) → run (cs ++ ds) t ≡ run ds (run cs t)
unfolding run
run-append [] ds t = refl
run-append ((now, c) ∷ cs) ds t = run-append cs ds (exec now c t)

pub IsHistory-same : (t : Table) → IsHistory t t
unfolding run
IsHistory-same t = record { calls = []; queued = tt; runs = refl }

pub IsHistory-one :
    (now : ℕ) (c : Call) (t : Table) → CreatesQueued (now, c) → IsHistory t (exec now c t)
unfolding run
IsHistory-one now c t q = record { calls = (now, c) ∷ []; queued = (q, tt); runs = refl }

pub IsHistory-then : (t u v : Table) → IsHistory t u → IsHistory u v → IsHistory t v
IsHistory-then t u v h k = record {
  calls = h.calls ++ k.calls;
  queued = All-append CreatesQueued h.calls k.calls h.queued k.queued;
  runs = k.runs ∙ ap (run k.calls) h.runs ∙ sym (run-append h.calls k.calls t);
}

pub IsHistory-Consistent : (t t' : Table) → IsHistory t t' → Consistent t → Consistent t'
IsHistory-Consistent t t' h k = subst Consistent (sym h.runs) (run-Consistent h.calls t h.queued k)

pub create_job-IsHistory :
    (turn : Turn) (job : DbJob) (t : Table)
    → job.status ≡ queued
    → IsHistory t (create_job turn job t).0
unfolding create_job exec
create_job-IsHistory (at now) job t q = IsHistory-one now (creates job) t q
create_job-IsHistory down job t q = IsHistory-same t
create_job-IsHistory (lost now) job t q = IsHistory-one now (creates job) t q

pub attach_manifest-IsHistory :
    (turn : Turn) (id : String) (m : Manifest) (t : Table)
    → IsHistory t (attach_manifest turn id m t).0
unfolding attach_manifest exec
attach_manifest-IsHistory (at now) id m t = IsHistory-one now (attaches id m) t tt
attach_manifest-IsHistory down id m t = IsHistory-same t
attach_manifest-IsHistory (lost now) id m t = IsHistory-one now (attaches id m) t tt

pub heartbeat-IsHistory :
    (turn : Turn) (id agent : String) (token ttl : ℕ) (t : Table)
    → IsHistory t (heartbeat turn id agent token ttl t).0
unfolding heartbeat exec
heartbeat-IsHistory (at now) id agent token ttl t =
    IsHistory-one now (beats id agent token ttl) t tt
heartbeat-IsHistory down id agent token ttl t = IsHistory-same t
heartbeat-IsHistory (lost now) id agent token ttl t =
    IsHistory-one now (beats id agent token ttl) t tt

pub finish-IsHistory :
    (turn : Turn) (id agent : String) (token : ℕ) (o : Outcome) (t : Table)
    → IsHistory t (finish turn id agent token o t).0
unfolding finish exec
finish-IsHistory (at now) id agent token o t = IsHistory-one now (finishes id agent token o) t tt
finish-IsHistory down id agent token o t = IsHistory-same t
finish-IsHistory (lost now) id agent token o t = IsHistory-one now (finishes id agent token o) t tt

pub set_status_queued-IsHistory :
    (turn : Turn) (id : String) (t : Table) → IsHistory t (set_status_queued turn id t).0
unfolding set_status_queued exec
set_status_queued-IsHistory (at now) id t = IsHistory-one now (requeues id) t tt
set_status_queued-IsHistory down id t = IsHistory-same t
set_status_queued-IsHistory (lost now) id t = IsHistory-one now (requeues id) t tt

-- What other sessions do between the statements of a claim is a history too.
pub record AreHistories (turns : ClaimTurns) : Type 0 where
  pub others : (t : Table) → IsHistory t (turns.others t)
  pub more_others : (t : Table) → IsHistory t (turns.more_others t)

claim_update-IsHistory :
    (turn : Turn) (id agent : String) (ttl : ℕ) (t : Table)
    → IsHistory t (run_write turn (λ now. claim_update now id agent ttl) t).0
unfolding claim_update exec
claim_update-IsHistory (at now) id agent ttl t = IsHistory-one now (claims id agent ttl) t tt
claim_update-IsHistory down id agent ttl t = IsHistory-same t
claim_update-IsHistory (lost now) id agent ttl t = IsHistory-one now (claims id agent ttl) t tt

pub try_claim-IsHistory :
    (turns : ClaimTurns) (id agent : String) (ttl : ℕ) (t : Table)
    → AreHistories turns
    → IsHistory t (try_claim turns id agent ttl t).0
try_claim-IsHistory turns id agent ttl t h =
    let t' = (run_write turns.update (λ now. claim_update now id agent ttl) t).0 in
    let first = claim_update-IsHistory turns.update id agent ttl t in
    elim (try_claim_table turns id agent ttl t) [
      | inl e ↦ subst (IsHistory t) (sym e) first
      | inr e ↦
          let u = turns.others t' in
          subst (IsHistory t) (sym e) (
            IsHistory-then t t' (turns.more_others u) first
              (IsHistory-then t' u (turns.more_others u) (h.others t') (h.more_others u)))
    ]
