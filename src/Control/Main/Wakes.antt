-- ===== src/Control/Main/Wakes.antt =====
-- The rounds of AnnounceManager.Run (cmd/control/main.go), one after another.
use mc_prototype.Base.{
  All, eq_refl, eq_iff, str_eq, Option, ℕ, ◌+◌, ◌≤◌, ◌<◌, ◌≡◌, ◌⊎◌, inl, inr, refl, ap, sym, subst,
  ◌∙◌, String, List, [], ◌∷◌, ◌++◌, Bool, Bool-cases, true, false, arith, ◌==◌, if◌then◌else◌,
  filter,
}
use mc_prototype.Dht.Network.{Network}
use mc_prototype.Control.World.{Codecs, AreFaithful, Manager, World}
use mc_prototype.Control.Requests.{Env}
use mc_prototype.Control.Announce.{
  mem, enqueue, is_due, due, announce_interval, announce_ttl, process,
}
use mc_prototype.Control.Announce.Laws.{
  mem-filter, mem-filter-false, last-process, manager-process, mem-enqueue-other,
}
use mc_prototype.Dht.Json.{Node}
use mc_prototype.Dht.Json.Medium.{IsMap}
use mc_prototype.Task.Keys.{key_state}
use mc_prototype.Control.Announce.Rounds.{
  Advertised, providers_at, process-Advertised, holds-process, state-Apart,
}
use mc_prototype.Control.Main.{
  Wake, done, tick, triggered, enqueues, received, on_wake, run_manager,
}

mem-filter-holds :
    (p : String → Bool) (id : String) (xs : List String) → mem id (filter p xs) ≡ true → p id ≡ true
mem-filter-holds p id xs h = elim (Bool-cases (p id)) [
  | inl e ↦ e
  | inr e ↦ absurd (ground (arith, mem-filter-false p id xs e, h))
]

-- The times of a job's announcements keep the interval, where `t` is the last one before, or 0.
abbrev pub Spaced : ℕ → List ℕ → Type 0
Spaced t [] = Unit {0}
Spaced t (u ∷ us) = ((t ≡ 0) ⊎ (t + announce_interval ≤ u)) × Spaced u us

-- The clock does not go back within a round, and is past Go's zero time.
abbrev pub IsSteady : String → Wake → Type 0
IsSteady id (tick now clock) = (0 < clock id) × (now ≤ clock id)
IsSteady id (triggered now clock) = (0 < clock id) × (now ≤ clock id)
IsSteady id _ = Unit {0}

abbrev pub AreSteady : String → List Wake → Type 0
AreSteady id [] = Unit {0}
AreSteady id (wake ∷ wakes) = IsSteady id wake × AreSteady id wakes

due_spaced :
    (now at : ℕ) (m : Manager) (id : String)
    → now ≤ at
    → is_due now m id ≡ true
    → (m.last id ≡ 0) ⊎ (m.last id + announce_interval ≤ at)
unfolding is_due
due_spaced now at m id le h = elim (Bool-cases (m.last id == 0)) [
  | inl e ↦ inl (ground (arith, e))
  | inr e ↦ inr (ground (arith, e, h))
]

All-from_mem :
    (P : String → Type 0) (xs : List String) → ((id : String) → mem id xs ≡ true → P id) → All P xs
All-from_mem P [] h = tt
All-from_mem P (x ∷ xs) h =
    (h x (ground (arith, eq_refl x)), All-from_mem P xs (λ id m. h id (ground (arith, m))))

All-at_mem :
    (P : String → Type 0) (xs : List String) → All P xs → (id : String) → mem id xs ≡ true → P id
All-at_mem P [] h id m = absurd (ground arith)
All-at_mem P (x ∷ xs) h id m = elim (Bool-cases (str_eq x id)) [
  | inl e ↦ subst P ((eq_iff x id).0 e) h.0
  | inr e ↦ All-at_mem P xs h.1 id (ground (arith, e, m))
]

module _ (n : Network) (ns : String) (c : Codecs n.Bytes) (env : Env) where
  round_times : String → ℕ → (String → ℕ) → World n → List ℕ
  round_times id now clock w = if mem id (due now w.manager) then clock id ∷ [] else []

  round_of : String → Wake → World n → List ℕ
  unfolding round_times
  round_of id (tick now clock) w = round_times id now clock w
  round_of id (triggered now clock) w = if w.manager.trigger then round_times id now clock w else []
  round_of id _ w = []

  -- When a job is announced while Run meets the given wakes.
  unfoldable pub announcements : String → List Wake → World n → List ℕ
  unfolding round_of
  announcements id [] w = []
  announcements id (done ∷ wakes) w = []
  announcements id (wake ∷ wakes) w =
      round_of id wake w ++ announcements id wakes (on_wake n ns c env wake w)

  round-Spaced :
      (id : String) (now : ℕ) (clock : String → ℕ) (w : World n) (us : List ℕ)
      → (0 < clock id) × (now ≤ clock id)
      → Spaced ((process n ns c env now clock w).manager.last id) us
      → Spaced (w.manager.last id) (round_times id now clock w ++ us)
  unfolding round_times due
  round-Spaced id now clock w us steady rest = elim (Bool-cases (mem id (due now w.manager))) [
    | inl e ↦ rw e (
      due_spaced now (clock id) w.manager id steady.1
          (mem-filter-holds (is_due now w.manager) id w.manager.dirty e),
      subst (λ (t : ℕ). Spaced t us) (last-process n ns c env now clock w id ∙ rw e refl) rest,
    )
    | inr e ↦
        rw e
          (subst (λ (t : ℕ). Spaced t us) (last-process n ns c env now clock w id ∙ rw e refl) rest)
  ]

  -- Whatever Run meets, with clocks that do not go back within a round, two announcements of a job are
  -- at least three seconds apart, and so is the first from the one that was recorded before.
  pub announcements-Spaced :
      (wakes : List Wake) (id : String) (w : World n)
      → AreSteady id wakes
      → Spaced (w.manager.last id) (announcements id wakes w)
  unfolding announcements round_of on_wake due enqueue
  announcements-Spaced [] id w s = tt
  announcements-Spaced (done ∷ wakes) id w s = tt
  announcements-Spaced (tick now clock ∷ wakes) id w s =
      round-Spaced id now clock w (announcements id wakes (process n ns c env now clock w)) s.0
        (announcements-Spaced wakes id (process n ns c env now clock w) s.1)
  announcements-Spaced (triggered now clock ∷ wakes) id w s = elim (Bool-cases w.manager.trigger) [
    | inl e ↦ simp e (
        round-Spaced id now clock (received n ns c env w)
          (announcements id wakes (process n ns c env now clock (received n ns c env w))) s.0
          (announcements-Spaced wakes id (process n ns c env now clock (received n ns c env w))
            s.1))
    | inr e ↦ simp e (announcements-Spaced wakes id w s.1)
  ]
  announcements-Spaced (enqueues other ∷ wakes) id w s =
      announcements-Spaced wakes id (record w { manager = enqueue other w.manager }) s.1

  -- Each candidate was announced, or the loop is going to be woken.
  abbrev pub Attended : Manager → Type 0
  Attended m = All (λ id. (m.trigger ≡ true) ⊎ (0 < m.last id)) m.dirty

  abbrev AttendedEach : Manager → Type 0
  AttendedEach m = (id : String) → mem id m.dirty ≡ true → (m.trigger ≡ true) ⊎ (0 < m.last id)

  process-AttendedEach :
      (now : ℕ) (clock : String → ℕ) (w : World n)
      → ((id : String) → 0 < clock id)
      → AttendedEach (process n ns c env now clock w).manager
  unfolding due is_due
  process-AttendedEach now clock w steady id h = inr (
      subst (λ (t : ℕ). 0 < t) (sym (last-process n ns c env now clock w id))
        (elim (Bool-cases (mem id (due now w.manager))) [
          | inl e ↦ rw e (steady id)
          | inr e ↦ rw e (never_zero (Bool-cases (w.manager.last id == 0)) e)
        ]))
    where
      listed : mem id w.manager.dirty ≡ true
      listed = sym (ap (mem id) (manager-process n ns c env now clock w).0) ∙ h

      never_zero :
          ((w.manager.last id == 0) ≡ true) ⊎ ((w.manager.last id == 0) ≡ false)
          → mem id (due now w.manager) ≡ false
          → 0 < w.manager.last id
      never_zero (inl z) e = absurd (
          ground (
            arith,
            mem-filter (is_due now w.manager) id w.manager.dirty (ground (arith, z)) listed,
            e,
          ))
      never_zero (inr z) e = ground (arith, z)

  on_wake-AttendedEach :
      (wake : Wake) (w : World n)
      → ((id : String) → IsSteady id wake)
      → AttendedEach w.manager
      → AttendedEach (on_wake n ns c env wake w).manager
  unfolding on_wake enqueue
  on_wake-AttendedEach done w s a = a
  on_wake-AttendedEach (tick now clock) w s a = process-AttendedEach now clock w (λ id. (s id).0)
  on_wake-AttendedEach (triggered now clock) w s a = elim (Bool-cases w.manager.trigger) [
    | inl e ↦ simp e (process-AttendedEach now clock (received n ns c env w) (λ id. (s id).0))
    | inr e ↦
        subst
          (λ (b : Bool).
            AttendedEach
              (if b then process n ns c env now clock (received n ns c env w) else w).manager)
          (sym e) a
  ]
  on_wake-AttendedEach (enqueues other) w s a = λ id h. inl refl

  run_manager-AttendedEach :
      (wakes : List Wake) (w : World n)
      → ((id : String) → AreSteady id wakes)
      → AttendedEach w.manager
      → AttendedEach (run_manager n ns c env wakes w).manager
  unfolding run_manager
  run_manager-AttendedEach [] w s a = a
  run_manager-AttendedEach (done ∷ wakes) w s a = a
  run_manager-AttendedEach (tick now clock ∷ wakes) w s a =
      run_manager-AttendedEach wakes (on_wake n ns c env (tick now clock) w) (λ id. (s id).1)
        (on_wake-AttendedEach (tick now clock) w (λ id. (s id).0) a)
  run_manager-AttendedEach (triggered now clock ∷ wakes) w s a =
      run_manager-AttendedEach wakes (on_wake n ns c env (triggered now clock) w) (λ id. (s id).1)
        (on_wake-AttendedEach (triggered now clock) w (λ id. (s id).0) a)
  run_manager-AttendedEach (enqueues other ∷ wakes) w s a =
      run_manager-AttendedEach wakes (on_wake n ns c env (enqueues other) w) (λ id. (s id).1)
        (on_wake-AttendedEach (enqueues other) w (λ id. (s id).0) a)

  -- No request is lost: whatever Run meets, with clocks past Go's zero time and not going back within a
  -- round, each candidate has been announced at least once or the loop's trigger is set, if this was so
  -- before.
  pub run_manager-Attended :
      (wakes : List Wake) (w : World n)
      → ((id : String) → AreSteady id wakes)
      → Attended w.manager
      → Attended (run_manager n ns c env wakes w).manager
  run_manager-Attended wakes w s a =
      All-from_mem _ (run_manager n ns c env wakes w).manager.dirty
        (run_manager-AttendedEach wakes w s (All-at_mem _ w.manager.dirty a))

  -- No candidate is ever taken off.
  run_manager-keeps :
      (wakes : List Wake) (w : World n) (id : String)
      → mem id w.manager.dirty ≡ true
      → mem id (run_manager n ns c env wakes w).manager.dirty ≡ true
  unfolding run_manager on_wake
  run_manager-keeps [] w id h = h
  run_manager-keeps (done ∷ wakes) w id h = h
  run_manager-keeps (tick now clock ∷ wakes) w id h =
      run_manager-keeps wakes (process n ns c env now clock w) id
        (ap (mem id) (manager-process n ns c env now clock w).0 ∙ h)
  run_manager-keeps (triggered now clock ∷ wakes) w id h =
      run_manager-keeps wakes (on_wake n ns c env (triggered now clock) w) id
        (elim (Bool-cases w.manager.trigger) [
          | inl e ↦
              simp e
                (ap (mem id) (manager-process n ns c env now clock (received n ns c env w)).0 ∙ h)
          | inr e ↦ simp e h
        ])
  run_manager-keeps (enqueues other ∷ wakes) w id h =
      run_manager-keeps wakes (record w { manager = enqueue other w.manager }) id
        (mem-enqueue-other id other w.manager h)

  -- Over a DHT that is a map: a job that was enqueued once is advertised by every later round for which
  -- the interval is over, whatever its state document says, which stays as it is.
  pub enqueued_readvertised :
      (holds : Node n → String → Option n.Bytes) (m : IsMap n ns holds)
      (f : AreFaithful n.tombstone c) (wakes : List Wake) (w : World n) (id : String) (now : ℕ)
      (clock : String → ℕ)
      → mem id w.manager.dirty ≡ true
      → let w' = run_manager n ns c env wakes w in
        is_due now w'.manager id ≡ true
        → Advertised n ns c env holds m f id
            (clock id + announce_ttl)
            (providers_at n ns c env holds m f id w'.node)
            (process n ns c env now clock w').node
          × (holds (process n ns c env now clock w').node (key_state id)
              ≡ holds w'.node (key_state id))
  enqueued_readvertised holds m f wakes w id now clock h ready =
      let w' = run_manager n ns c env wakes w in
      (
        process-Advertised n ns c env holds m f id now clock w' (run_manager-keeps wakes w id h)
            ready,
        holds-process n ns c env holds m f id now clock w' (key_state id)
            (state-Apart n ns c env holds m f id),
      )
