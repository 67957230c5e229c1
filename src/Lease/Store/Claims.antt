-- ===== src/Lease/Store/Claims.antt =====
-- TryClaim on every branch: what a success means, and which refusal is given.
use mc_prototype.Base.{
  Option, subst, ℕ, ◌+◌, ◌≡◌, refl, ◌∙◌, ap, sym, String, none, some, true, arith, eq_refl,
  Bool-cases, ◌⊎◌, Option-cases, inl, inr,
}
use mc_prototype.Lease.Types.{Lease, database, ok, err}
use mc_prototype.Lease.Table.{
  Row, Table, find_row, update_row, hits, affected-update_row, update_row_unchanged,
}
use mc_prototype.Lease.Update.{claim_change-id, claim_guard, claim_change, after_seconds}
use mc_prototype.Lease.Store.{
  run_write, Result, Turn, at, down, lost, ClaimTurns, try_claim, claim_reply, claim_update,
  diagnose, lease_of,
}
use mc_prototype.Lease.History.{claims, exec, find_row-updated}

-- What holds when a claim at the instant `now` took the job.
pub record Granted (now : ℕ) (id agent : String) (ttl : ℕ) (t t' : Table) (l : Lease) : Type 0 where
  pub row : Row
  pub before : find_row id t ≡ some row
  pub free : claim_guard now row ≡ true
  pub after : find_row id t' ≡ some (claim_change now agent ttl row)
  pub table : t' ≡ exec now (claims id agent ttl) t
  pub owner : l.agent_id ≡ agent
  pub expiry : l.expire_at ≡ after_seconds now ttl
  pub token : l.fencing_token ≡ row.lease_token + 1

claim_after :
    (now : ℕ) (id agent : String) (ttl : ℕ) (t : Table) {r : Row}
    → find_row id t ≡ some r
    → claim_guard now r ≡ true
    → find_row id (update_row id (claim_guard now) (claim_change now agent ttl) t).0
      ≡ some (claim_change now agent ttl r)
claim_after now id agent ttl t h g =
    find_row-updated id id _ _ (claim_change-id now agent ttl) t h ∙ rw (eq_refl, g) refl

-- The update's two outcomes.
pub claim_update_taken :
    (now : ℕ) (id agent : String) (ttl : ℕ) (t : Table) {r : Row}
    → find_row id t ≡ some r
    → claim_guard now r ≡ true
    → claim_update now id agent ttl t
      ≡ (exec now (claims id agent ttl) t, some (claim_change now agent ttl r))
unfolding claim_update exec
claim_update_taken now id agent ttl t {r} h g = ground (
  arith,
  affected-update_row id (claim_guard now) (claim_change now agent ttl)
      (claim_change-id now agent ttl) t,
  claim_after now id agent ttl t {r = r},
)

pub claim_update_refused :
    (now : ℕ) (id agent : String) (ttl : ℕ) (t : Table)
    → hits (claim_guard now) (find_row id t) ≡ 0
    → claim_update now id agent ttl t ≡ (t, none)
unfolding claim_update
claim_update_refused now id agent ttl t h = ground (
  arith,
  affected-update_row id (claim_guard now) (claim_change now agent ttl)
      (claim_change-id now agent ttl) t,
  update_row_unchanged id (claim_guard now) (claim_change now agent ttl) t,
)

-- Either a row was free and taken, or the update changes nothing.
pub claim_cases :
    (now : ℕ) (id : String) (t : Table)
    → ((r : Row) × (find_row id t ≡ some r) × (claim_guard now r ≡ true))
      ⊎ (hits (claim_guard now) (find_row id t) ≡ 0)
claim_cases now id t = elim (Option-cases (find_row id t)) [
  | inl e ↦ inr (rw e refl)
  | inr (r, e) ↦ elim (Bool-cases (claim_guard now r)) [
    | inl g ↦ inl (r, e, g)
    | inr g ↦ inr (rw (e, g) refl)
  ]
]

-- A claim whose update takes the row of a free job succeeds with the next token.
pub try_claim_free :
    (now : ℕ) (turns : ClaimTurns) (id agent : String) (ttl : ℕ) (t : Table) {r : Row}
    → turns.update ≡ at now
    → find_row id t ≡ some r
    → claim_guard now r ≡ true
    → try_claim turns id agent ttl t ≡ (
      exec now (claims id agent ttl) t,
      ok (record {
        agent_id = agent;
        expire_at = after_seconds now ttl;
        fencing_token = r.lease_token + 1;
      }),
    )
unfolding try_claim claim_reply lease_of claim_change
try_claim_free now turns id agent ttl t e h g =
    ground (arith, claim_update_taken now id agent ttl t h g)

-- A claim whose update takes no row gives a refusal, and leaves the table to the other sessions.
pub try_claim_refused :
    (now : ℕ) (turns : ClaimTurns) (id agent : String) (ttl : ℕ) (t : Table)
    → turns.update ≡ at now
    → hits (claim_guard now) (find_row id t) ≡ 0
    → try_claim turns id agent ttl t
      ≡ (turns.more_others (turns.others t), err (diagnose turns id (turns.others t)))
unfolding try_claim claim_reply
try_claim_refused now turns id agent ttl t e h =
    ground (arith, claim_update_refused now id agent ttl t h)

try_claim_unreachable :
    (turns : ClaimTurns) (id agent : String) (ttl : ℕ) (t : Table)
    → (turns.update ≡ down) ⊎ ((now : ℕ) × (turns.update ≡ lost now))
    → (try_claim turns id agent ttl t).1 ≡ err database
unfolding try_claim claim_reply
try_claim_unreachable turns id agent ttl t (inl e) = ground arith
try_claim_unreachable turns id agent ttl t (inr (now, e)) = ground arith

granted :
    (now : ℕ) (turns : ClaimTurns) (id agent : String) (ttl : ℕ) (t t' : Table) (l : Lease)
    {r : Row}
    → turns.update ≡ at now
    → find_row id t ≡ some r
    → claim_guard now r ≡ true
    → try_claim turns id agent ttl t ≡ (t', ok l)
    → Granted now id agent ttl t t' l
unfolding exec
granted now turns id agent ttl t t' l {r} e b g h = record {
  row = r;
  before = b;
  free = g;
  after =
      subst (λ s. find_row id s ≡ some (claim_change now agent ttl r)) moved
        (claim_after now id agent ttl t b g);
  table = sym moved;
  owner = ground (arith, taken);
  expiry = ground (arith, taken);
  token = ground (arith, taken);
}
  where
    taken :
        ok (record {
          agent_id = agent;
          expire_at = after_seconds now ttl;
          fencing_token = r.lease_token + 1;
        })
        ≡ ok l
    taken = ap (λ p. p.1) (sym (try_claim_free now turns id agent ttl t e b g) ∙ h)

    moved : exec now (claims id agent ttl) t ≡ t'
    moved = ap (λ p. p.0) (sym (try_claim_free now turns id agent ttl t e b g) ∙ h)

-- A successful claim found the job queued and without a live lease.
pub try_claim-Granted :
    (turns : ClaimTurns) (id agent : String) (ttl : ℕ) (t t' : Table) (l : Lease)
    → try_claim turns id agent ttl t ≡ (t', ok l)
    → (now : ℕ) × (turns.update ≡ at now) × Granted now id agent ttl t t' l
try_claim-Granted turns id agent ttl t t' l h = go turns.update refl
  where
    go :
        (u : Turn)
        → turns.update ≡ u
        → (now : ℕ) × (turns.update ≡ at now) × Granted now id agent ttl t t' l
    go down e = absurd (ground (arith, try_claim_unreachable turns id agent ttl t (inl e)))
    go (lost now) e =
        absurd (ground (arith, try_claim_unreachable turns id agent ttl t (inr (now, e))))
    go (at now) e = elim (claim_cases now id t) [
      | inl (r, b, g) ↦ (now, e, granted now turns id agent ttl t t' l e b g h)
      | inr none_hit ↦
          absurd (ground (arith, try_claim_refused now turns id agent ttl t e none_hit))
    ]

claim_reply_table :
    (turns : ClaimTurns) (id agent : String) (t : Table) (r : Result (Option Row))
    → ((claim_reply turns id agent (t, r)).0 ≡ t)
      ⊎ ((claim_reply turns id agent (t, r)).0 ≡ turns.more_others (turns.others t))
unfolding claim_reply
claim_reply_table turns id agent t (err e) = inl refl
claim_reply_table turns id agent t (ok (some r)) = inl refl
claim_reply_table turns id agent t (ok none) = inr refl

-- A claim leaves the table that its update leaves, or what other sessions made of that.
pub try_claim_table :
    (turns : ClaimTurns) (id agent : String) (ttl : ℕ) (t : Table)
    → let t' = (run_write turns.update (λ now. claim_update now id agent ttl) t).0 in
      ((try_claim turns id agent ttl t).0 ≡ t')
      ⊎ ((try_claim turns id agent ttl t).0 ≡ turns.more_others (turns.others t'))
unfolding try_claim
try_claim_table turns id agent ttl t =
    let (t', r) = run_write turns.update (λ now. claim_update now id agent ttl) t in
    claim_reply_table turns id agent t' r
