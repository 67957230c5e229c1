-- ===== src/Lease/Held.antt =====
-- A held lease, and the statements that leave it alone (pg_store.go).
use mc_prototype.Base.{
  Bool-cases, str_ne, ℕ, ◌≤◌, ◌<◌, ◌≡◌, ◌≢◌, ◌⊎◌, inl, inr, refl, sym, String, some, List, [], ◌∷◌,
  Bool, true, false, arith, str_eq, eq_iff, eq_refl, if◌then◌else◌, All, int64_limit,
}
use mc_prototype.Lease.Types.{Lease, is_active, ok}
use mc_prototype.Lease.Table.{guarded, Row, Table, find_row}
use mc_prototype.Lease.Update.{
  finish_change, requeue_change, after_seconds, attach_change, claim_guard, claim_change,
  heartbeat_guard, heartbeat_change, finish_guard, requeue_guard,
}
use mc_prototype.Lease.Store.{ClaimTurns, try_claim}
use mc_prototype.Lease.Store.Claims.{Granted, try_claim-Granted}
use mc_prototype.Lease.History.{
  Call, creates, attaches, claims, beats, finishes, requeues, run, effect, evolve, find_row-run,
}

-- The row is leased to `agent` under token `k`, at least until the instant `e`.
pub record IsHeld (agent : String) (k e : ℕ) (r : Row) : Type 0 where
  pub owner : r.lease_agent ≡ some agent
  pub token : r.lease_token ≡ k
  pub active : is_active r.status ≡ true
  pub expiry : ℕ
  pub expires : r.lease_expires_at ≡ some expiry
  pub lasts : e ≤ expiry

-- The statements that may run while the lease lasts: those of other agents, the holder's own
-- heartbeats that do not shorten the lease, and requeues up to the instant `e`.
abbrev pub Undisturbed : String → String → ℕ → ℕ × Call → Type 0
Undisturbed id agent e (now, beats k a token ttl) =
    (k ≢ id) ⊎ (a ≢ agent) ⊎ (e ≤ after_seconds now ttl)
Undisturbed id agent e (now, finishes k a token o) = (k ≢ id) ⊎ (a ≢ agent)
Undisturbed id agent e (now, requeues k) = (k ≢ id) ⊎ (now ≤ e)
Undisturbed id agent e (now, creates job) = Unit
Undisturbed id agent e (now, attaches k m) = Unit
Undisturbed id agent e (now, claims k a ttl) = Unit

pub claim_guard_held :
    (now : ℕ) (agent : String) (k e : ℕ) (r : Row) → IsHeld agent k e r → claim_guard now r ≡ false
unfolding claim_guard
claim_guard_held now agent k e r h = ground (arith, h.active)

heartbeat_guard_held :
    (a agent : String) (token k e : ℕ) (r : Row)
    → IsHeld agent k e r
    → (a ≢ agent)
    → heartbeat_guard a token r ≡ false
unfolding heartbeat_guard
heartbeat_guard_held a agent token k e r h n = ground (arith, h.owner, eq_iff agent a)

finish_guard_held :
    (a agent : String) (token k e : ℕ) (r : Row)
    → IsHeld agent k e r
    → (a ≢ agent)
    → finish_guard a token r ≡ false
unfolding finish_guard
finish_guard_held a agent token k e r h n = ground (arith, h.owner, eq_iff agent a)

requeue_guard_held :
    (now : ℕ) (agent : String) (k e : ℕ) (r : Row)
    → IsHeld agent k e r
    → now ≤ e
    → requeue_guard now r ≡ false
unfolding requeue_guard
requeue_guard_held now agent k e r h n = ground (arith, h.expires, h.lasts)

-- A statement for another job, or whose guard fails, leaves the row alone.
module _ (agent : String) (k e : ℕ) (j id : String) (guard : Row → Bool) (change : Row → Row)
    (r : Row) (h : IsHeld agent k e r) where
  other_job : j ≢ id → IsHeld agent k e (if str_eq j id then guarded guard change r else r)
  other_job n = rw (str_ne j id n) h

  guard_fails :
      guard r ≡ false → IsHeld agent k e (if str_eq j id then guarded guard change r else r)
  guard_fails f = elim (Bool-cases (str_eq j id)) [
    | inl same ↦ rw (same, f) h
    | inr other ↦ rw other h
  ]

  guard_keeps :
      IsHeld agent k e (change r)
      → IsHeld agent k e (if str_eq j id then guarded guard change r else r)
  guard_keeps g = elim (Bool-cases (str_eq j id)) [
    | inl same ↦ elim (Bool-cases (guard r)) [ inl t ↦ rw (same, t) g | inr f ↦ rw (same, f) h ]
    | inr other ↦ rw other h
  ]

effect-IsHeld :
    (now : ℕ) (c : Call) (id agent : String) (k e : ℕ) (r : Row)
    → Undisturbed id agent e (now, c)
    → IsHeld agent k e r
    → IsHeld agent k e (effect now c id r)
unfolding effect attach_change heartbeat_change
effect-IsHeld now (creates job) id agent k e r u h = h
effect-IsHeld now (attaches j m) id agent k e r u h =
    guard_keeps agent k e j id (λ _. true) (attach_change m) r h
      (record {
        owner = h.owner;
        token = h.token;
        active = h.active;
        expiry = h.expiry;
        expires = h.expires;
        lasts = h.lasts;
      })
effect-IsHeld now (claims j a ttl) id agent k e r u h =
    guard_fails agent k e j id (claim_guard now) (claim_change now a ttl) r h
      (claim_guard_held now agent k e r h)
effect-IsHeld now (beats j a token ttl) id agent k e r (inl n) h =
    other_job agent k e j id (heartbeat_guard a token) (heartbeat_change now ttl) r h n
effect-IsHeld now (beats j a token ttl) id agent k e r (inr (inl n)) h =
    guard_fails agent k e j id (heartbeat_guard a token) (heartbeat_change now ttl) r h
      (heartbeat_guard_held a agent token k e r h n)
effect-IsHeld now (beats j a token ttl) id agent k e r (inr (inr n)) h =
    guard_keeps agent k e j id (heartbeat_guard a token) (heartbeat_change now ttl) r h (record {
      owner = h.owner;
      token = h.token;
      active = refl;
      expiry = after_seconds now ttl;
      expires = refl;
      lasts = n;
    })
effect-IsHeld now (finishes j a token o) id agent k e r (inl n) h =
    other_job agent k e j id (finish_guard a token) (finish_change o) r h n
effect-IsHeld now (finishes j a token o) id agent k e r (inr n) h =
    guard_fails agent k e j id (finish_guard a token) (finish_change o) r h
      (finish_guard_held a agent token k e r h n)
effect-IsHeld now (requeues j) id agent k e r (inl n) h =
    other_job agent k e j id (requeue_guard now) requeue_change r h n
effect-IsHeld now (requeues j) id agent k e r (inr n) h =
    guard_fails agent k e j id (requeue_guard now) requeue_change r h
      (requeue_guard_held now agent k e r h n)

evolve-IsHeld :
    (cs : List (ℕ × Call)) (id agent : String) (k e : ℕ) (r : Row)
    → All (Undisturbed id agent e) cs
    → IsHeld agent k e r
    → IsHeld agent k e (evolve cs id r)
unfolding evolve
evolve-IsHeld [] id agent k e r u h = h
evolve-IsHeld ((now, c) ∷ cs) id agent k e r u h =
    evolve-IsHeld cs id agent k e (effect now c id r) u.1 (effect-IsHeld now c id agent k e r u.0 h)

claimed-IsHeld :
    (now : ℕ) (id agent : String) (ttl : ℕ) (t t' : Table) (l : Lease)
    (g : Granted now id agent ttl t t' l)
    → IsHeld agent l.fencing_token l.expire_at (claim_change now agent ttl g.row)
unfolding claim_change
claimed-IsHeld now id agent ttl t t' l g = record {
  owner = refl;
  token = sym g.token;
  active = refl;
  expiry = after_seconds now ttl;
  expires = refl;
  lasts = omega (arith, g.expiry);
}

pub heartbeat_guard_own :
    (agent : String) (k e : ℕ) (r : Row)
    → IsHeld agent k e r
    → k < int64_limit
    → heartbeat_guard agent k r ≡ true
unfolding heartbeat_guard
heartbeat_guard_own agent k e r h small = ground (arith, h.owner, h.token, eq_refl agent)

pub renewed-IsHeld :
    (s : ℕ) (id agent : String) (k e ttl : ℕ) (r : Row)
    → IsHeld agent k e r
    → heartbeat_guard agent k r ≡ true
    → IsHeld agent k (after_seconds s ttl) (effect s (beats id agent k ttl) id r)
unfolding effect heartbeat_change
renewed-IsHeld s id agent k e ttl r h g =
    rw (eq_refl id, g)
      (record {
        owner = h.owner;
        token = h.token;
        active = refl;
        expiry = after_seconds s ttl;
        expires = refl;
        lasts = omega arith;
      })

-- The holder's finish passes its guard.
pub finish_guard_own :
    (agent : String) (k e : ℕ) (r : Row)
    → IsHeld agent k e r
    → k < int64_limit
    → finish_guard agent k r ≡ true
unfolding finish_guard
finish_guard_own agent k e r h small = ground (arith, h.owner, h.token, eq_refl agent)

-- After a claim and undisturbing statements the job's row is there, and still held.
pub run-IsHeld :
    (turns : ClaimTurns) (id agent : String) (ttl : ℕ) (t t' : Table) (l : Lease)
    (cs : List (ℕ × Call))
    → try_claim turns id agent ttl t ≡ (t', ok l)
    → All (Undisturbed id agent l.expire_at) cs
    → (r : Row) × (find_row id (run cs t') ≡ some r) × IsHeld agent l.fencing_token l.expire_at r
run-IsHeld turns id agent ttl t t' l cs h u =
    let (now, _, g) = try_claim-Granted turns id agent ttl t t' l h in
    (
      evolve cs id (claim_change now agent ttl g.row),
      find_row-run cs id t' g.after,
      evolve-IsHeld cs id agent l.fencing_token l.expire_at _ u
          (claimed-IsHeld now id agent ttl t t' l g),
    )
