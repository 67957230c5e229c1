-- ===== src/Agent/Heartbeats.antt =====
-- The interval and the goroutine of heartbeats in cmd/agent/main.go. The flags are int64 numbers of
-- seconds.
pub mod Laws
use mathlib.Core.List.{List, [], ◌∷◌}
use mc_prototype.Base.{
  ℕ, zero, suc, ◌-◌, ◌*◌, ◌/◌, ℤ, pos, negsuc, Option, none, some, Bool, true, false, leb, ltb,
  if◌then◌else◌,
}
use mc_prototype.Task.Types.{Lease}
use mc_prototype.Lease.Types.{second}
use mc_prototype.Agent.Client.{Answer, read_lease}
use mc_prototype.Base.{int64, uint64_limit, ◌%◌}

-- time.Duration(sec) * time.Second, which wraps round in an int64.
abbrev pub seconds : ℤ → ℤ
seconds (pos n) = int64 (n * second % uint64_limit)
seconds (negsuc n) = int64 ((uint64_limit - suc n * second % uint64_limit) % uint64_limit)

-- a >= b
at_least : ℤ → ℤ → Bool
at_least (pos a) (pos b) = leb b a
at_least (pos a) (negsuc b) = true
at_least (negsuc a) (pos b) = false
at_least (negsuc a) (negsuc b) = leb a b

negated : ℕ → ℤ
negated zero = pos 0
negated (suc n) = negsuc n

-- The interval for a lease time that is not longer than the one that was asked for.
shortened : ℤ → ℤ
unfolding negated
shortened (pos ttl) = if ltb second ttl then pos (ttl - second) else pos (ttl / 2)
shortened (negsuc n) = negated (suc n / 2)

-- hbEvery, of the flags -ttl-sec and -heartbeat-sec; time.NewTicker panics where it is not positive.
unfoldable pub heartbeat_every : ℤ → ℤ → ℤ
unfolding at_least shortened
heartbeat_every ttl_sec hb_sec =
    if at_least (seconds hb_sec) (seconds ttl_sec)
    then shortened (seconds ttl_sec)
    else seconds hb_sec

abbrev pub max_fail : ℕ
max_fail = 3

-- How many heartbeats the goroutine sends, where `fail` of them failed one after another before, and
-- `answers` are those to the heartbeats of the ticks until cancelJob.
unfoldable pub heartbeats : ℕ → List Answer → ℕ
heartbeats fail [] = 0
heartbeats fail (a ∷ answers) = elim (read_lease a) [
  | some l ↦ suc (heartbeats 0 answers)
  | none ↦
      let rest = heartbeats (suc fail) answers in if leb max_fail (suc fail) then 1 else suc rest
]
