-- ===== src/Dht/Start/Polls.antt =====
-- The loop of NewNode (internal/dht/node.go) that waits for a first peer.
use native.Mathlib.Decide.{dec_lt}
use mc_prototype.Base.{
  ℕ, zero, suc, ◌+◌, ◌*◌, ◌≤◌, ◌<◌, ◌≡◌, refl, some, Bool, Bool-cases, inl, inr, true, false, arith,
  ltb,
}
use mc_prototype.Dht.Start.{Readings, deadline, millisecond, wait_peers, max_turns}

-- The clock starts no earlier than the deadline was computed, and a pause takes 200 ms at least.
pub record IsPaced (r : Readings) : Type 0 where
  pub first : r.start ≤ r.clock 0
  pub pauses : (i : ℕ) → r.clock i + 200 * millisecond ≤ r.clock (suc i)

-- A peer was met by a turn before which no turn was past the deadline.
pub record Met (r : Readings) (from : ℕ) : Type 0 where
  pub at : ℕ
  pub since : from ≤ at
  pub peer : r.has_peer at ≡ true
  pub in_time : (j : ℕ) → from ≤ j → j < at → r.clock j ≤ deadline r

-- The loop gave up at a turn past the deadline, up to which no turn met a peer.
pub record Missed (r : Readings) (from : ℕ) : Type 0 where
  pub at : ℕ
  pub since : from ≤ at
  pub late : deadline r < r.clock at
  pub alone : (j : ℕ) → from ≤ j → j ≤ at → r.has_peer j ≡ false

abbrev pub Verdict : Readings → ℕ → Bool → Type 0
Verdict r from true = Met r from
Verdict r from false = Missed r from

clock-le : (r : Readings) → IsPaced r → (i : ℕ) → r.start + i * (200 * millisecond) ≤ r.clock i
clock-le r p zero = omega (arith, p.first)
clock-le r p (suc i) = omega (arith, clock-le r p i, p.pauses i)

same_turn : (i j : ℕ) → i ≤ j → j ≤ i → i ≡ j
same_turn i j a b = omega arith

extend :
    (r : Readings) (i : ℕ) (b : Bool)
    → r.has_peer i ≡ false
    → r.clock i ≤ deadline r
    → Verdict r (suc i) b
    → Verdict r i b
extend r i true none_yet before v = record {
  at = v.at;
  since = omega (arith, v.since);
  peer = v.peer;
  in_time = λ j a b. elim (dec_lt i j) [
    | yes later ↦ v.in_time j later b
    | no here ↦ rw (← same_turn i j a (omega arith)) before
  ];
}
extend r i false none_yet before v = record {
  at = v.at;
  since = omega (arith, v.since);
  late = v.late;
  alone = λ j a b. elim (dec_lt i j) [
    | yes later ↦ v.alone j later b
    | no here ↦ rw (← same_turn i j a (omega arith)) none_yet
  ];
}

wait_peers_from :
    (r : Readings) (left i : ℕ)
    → IsPaced r
    → 27 ≤ i + left
    → i ≤ 26
    → (b : Bool) × (wait_peers r left i ≡ some b) × Verdict r i b
unfolding wait_peers
wait_peers_from r zero i p h le = absurd (omega arith)
wait_peers_from r (suc left) i p h le = elim (Bool-cases (r.has_peer i)) [
  | inl met ↦ (
    true,
    rw met refl,
    record { at = i; since = omega arith; peer = met; in_time = λ j a b. absurd (omega arith) },
  )
  | inr none_yet ↦ elim (Bool-cases (ltb (deadline r) (r.clock i))) [
    | inl late ↦ (
      false,
      rw (none_yet, late) refl,
      record {
        at = i;
        since = omega arith;
        late = ground (arith, late);
        alone = λ j a b. rw (← same_turn i j a b) none_yet;
      },
    )
    | inr early ↦
        let before : r.clock i ≤ deadline r = ground (arith, early) in
        let (b, e, v) =
          wait_peers_from r left (suc i) p (omega arith) (omega (arith, clock-le r p i)) in
        (b, rw (none_yet, early) e, extend r i b none_yet before v)
  ]
]

-- With pauses of 200 ms or more the loop ends within 27 turns: with a peer that was met before the five
-- seconds were over, or, after they were, without one at any turn.
pub wait_peers_total :
    (r : Readings) → IsPaced r → (b : Bool) × (wait_peers r max_turns 0 ≡ some b) × Verdict r 0 b
wait_peers_total r p = wait_peers_from r max_turns 0 p (omega arith) (omega arith)
