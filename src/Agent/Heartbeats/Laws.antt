-- ===== src/Agent/Heartbeats/Laws.antt =====
-- The interval of the heartbeats of cmd/agent/main.go, and their end.
use mathlib.Core.List.{List, [], ◌∷◌}
use mc_prototype.Base.{
  ℕ, suc, ◌*◌, ◌≤◌, ◌<◌, ◌≡◌, refl, pos, none, some, Bool, true, false, ◌&&◌, Bool-cases, inl, inr,
  arith, Option-cases, if◌then◌else◌, ◌-◌, ◌/◌,
}
use native.Mathlib.Decide.{dec_lt}
use mc_prototype.Lease.Types.{second}
use mc_prototype.Control.Requests.{ttl_or_default}
use mc_prototype.Agent.Client.{Answer, failed, read_lease, seconds_of}
use mc_prototype.Agent.Heartbeats.{seconds, heartbeat_every, heartbeats, at_least, shortened}
use mc_prototype.Base.{uint64_limit, ◌%◌}

-- A number of seconds whose nanoseconds fit into an int64.
seconds_pos : (n : ℕ) → n ≤ 9223372036 → seconds (pos n) ≡ pos (n * second)
seconds_pos n h =
    let small : n * second % uint64_limit ≡ n * second = omega arith in rw small (ground arith)

-- The server grants the time that was asked for.
lease_time :
    (ttl_sec : ℕ)
    → 1 ≤ ttl_sec
    → ttl_sec ≤ 3600
    → ttl_or_default (seconds_of (seconds (pos ttl_sec))) ≡ ttl_sec * second
unfolding ttl_or_default seconds_of
lease_time ttl_sec h k =
    rw (seconds_pos ttl_sec (omega arith))
      (let e : ttl_sec * second / second ≡ ttl_sec = omega arith in ground (arith, e))

-- Of a lease time from one second to one hour and an interval of at least one second, whose nanoseconds
-- fit into an int64 (9223372036 seconds at most), the agent makes an interval that is positive and
-- shorter than the lease that the server grants.
pub heartbeat_every_bounds :
    (ttl_sec hb_sec : ℕ)
    → 1 ≤ ttl_sec
    → ttl_sec ≤ 3600
    → 1 ≤ hb_sec
    → hb_sec ≤ 9223372036
    → (every : ℕ) × (heartbeat_every (pos ttl_sec) (pos hb_sec) ≡ pos every)
      × (0 < every)
      × (every < ttl_or_default (seconds_of (seconds (pos ttl_sec))))
unfolding heartbeat_every at_least shortened
heartbeat_every_bounds ttl_sec hb_sec h k g fits =
    rw
      (
        lease_time ttl_sec h k,
        heartbeat_every,
        seconds_pos ttl_sec (omega arith),
        seconds_pos hb_sec fits,
      )
      (elim (dec_lt hb_sec ttl_sec) [
        | yes lt ↦ (hb_sec * second, ground arith, omega arith, omega arith)
        | no ge ↦ elim (dec_lt 1 ttl_sec) [
          | yes gt ↦ (ttl_sec * second - second, ground arith, omega arith, omega arith)
          | no le ↦ (ttl_sec * second / 2, ground arith, omega arith, omega arith)
        ]
      ])

abbrev is_lost : Answer → Bool
is_lost a = elim (read_lease a) [ none ↦ true | some l ↦ false ]

-- The answers up to the first three in a row that are lost, or all of them.
pub until_lost : List Answer → ℕ
until_lost [] = 0
until_lost (a ∷ []) = 1
until_lost (a ∷ b ∷ []) = 2
until_lost (a ∷ b ∷ d ∷ rest) =
    let more = until_lost (b ∷ d ∷ rest) in
    if is_lost a && (is_lost b && is_lost d) then 3 else suc more

until_lost_kept :
    (a : Answer) (answers : List Answer)
    → is_lost a ≡ false
    → until_lost (a ∷ answers) ≡ suc (until_lost answers)
unfolding until_lost
until_lost_kept a [] k = refl
until_lost_kept a (b ∷ []) k = refl
until_lost_kept a (b ∷ d ∷ rest) k = ground (arith, k)

until_lost_second :
    (x a : Answer) (answers : List Answer)
    → is_lost a ≡ false
    → until_lost (x ∷ a ∷ answers) ≡ suc (suc (until_lost answers))
unfolding until_lost
until_lost_second x a [] k = refl
until_lost_second x a (d ∷ rest) k =
    let step = until_lost_kept a (d ∷ rest) k in
    elim (Bool-cases (is_lost x)) [
      | inl e ↦ ground (arith, e, k, step)
      | inr e ↦ ground (arith, e, step)
    ]

heartbeats_after_lost :
    (answers : List Answer) (x y : Answer)
    → is_lost x ≡ true
    → is_lost y ≡ true
    → (heartbeats 0 answers ≡ until_lost answers)
      × (suc (heartbeats 1 answers) ≡ until_lost (x ∷ answers))
      × (suc (suc (heartbeats 2 answers)) ≡ until_lost (x ∷ y ∷ answers))
unfolding heartbeats until_lost
heartbeats_after_lost [] x y h k = (refl, refl, refl)
heartbeats_after_lost (a ∷ answers) x y h k = elim (Option-cases (read_lease a)) [
  | inl e ↦
      let lost : is_lost a ≡ true = rw (e, is_lost) refl in
      let (h0, h1, h2) = heartbeats_after_lost answers a a lost lost in
      let (g0, g1, g2) = heartbeats_after_lost answers x a h lost in
      (ground (arith, e, h1), ground (arith, e, g2), ground (arith, e, h, k, lost))
  | inr (l, e) ↦
      let fresh : is_lost a ≡ false = rw (e, is_lost) refl in
      let (h0, h1, h2) = heartbeats_after_lost answers x y h k in
      let one = until_lost_kept a answers fresh in
      let two = until_lost_second x a answers fresh in
      let three = until_lost_second y a answers fresh in
      (ground (arith, e, h0, one), ground (arith, e, h0, two), ground (arith, e, h0, fresh, three))
]

-- The goroutine sends a heartbeat at every tick until three in a row failed, and none after them.
pub heartbeats-until_lost : (answers : List Answer) → heartbeats 0 answers ≡ until_lost answers
unfolding read_lease
heartbeats-until_lost answers = (heartbeats_after_lost answers (failed "") (failed "") refl refl).0
