-- ===== src/Control/Announce/Laws.antt =====
-- The announcements that AnnounceManager makes: none twice within the interval.
use mc_prototype.Base.{
  ◌≢◌, filter, Bool, eq_iff, if◌then◌else◌, ℕ, ◌+◌, ◌<◌, ◌≡◌, refl, ap, ◌∙◌, String, List, [], ◌∷◌,
  ◌++◌ as append, true, false, arith, eq_refl, Bool-cases, inl, inr,
}
use mc_prototype.Dht.Network.{Network}
use mc_prototype.Control.World.{Codecs, Manager, World}
use mc_prototype.Control.Requests.{Env}
use mc_prototype.Control.Announce.{
  mem, enqueue, is_due, due, announce_interval, announce_once, announce_all, process, set_last,
}

pub mem_last : (id : String) (xs : List String) → mem id (append xs (id ∷ [])) ≡ true
mem_last id [] = rw (eq_refl id) refl
mem_last id (x ∷ xs) = ground (arith, mem_last id xs)

-- A job that is enqueued is a candidate, and the loop is woken.
pub mem-enqueue : (id : String) (m : Manager) → mem id (enqueue id m).dirty ≡ true
unfolding enqueue
mem-enqueue id m = elim (Bool-cases (mem id m.dirty)) [
  | inl e ↦ rw e e
  | inr e ↦ rw e (mem_last id m.dirty)
]

pub mem-filter :
    (p : String → Bool) (id : String) (xs : List String)
    → p id ≡ true
    → mem id xs ≡ true
    → mem id (filter p xs) ≡ true
mem-filter p id [] h k = absurd (ground arith)
mem-filter p id (x ∷ xs) h k =
    ground (arith, mem-filter p id xs h, eq_iff x id, ap p {x = x} {y = id})

pub mem-append-left :
    (id : String) (xs ys : List String) → mem id xs ≡ true → mem id (append xs ys) ≡ true
mem-append-left id [] ys h = ground (arith, h)
mem-append-left id (x ∷ xs) ys h = ground (arith, h, mem-append-left id xs ys)

pub mem-append-right :
    (id : String) (xs ys : List String) → mem id ys ≡ true → mem id (append xs ys) ≡ true
mem-append-right id [] ys h = h
mem-append-right id (x ∷ xs) ys h = ground (arith, mem-append-right id xs ys h)

pub head_ne : (id x : String) (ids : List String) → mem id (x ∷ ids) ≡ false → x ≢ id
head_ne id x ids h e = ground (arith, h, eq_iff x id, e)

pub only_head :
    (id x : String) (ids : List String) → mem id (x ∷ ids) ≡ true → mem id ids ≡ false → x ≡ id
only_head id x ids h last = (eq_iff x id).0 (ground (arith, h, last))

pub mem-filter-false :
    (p : String → Bool) (id : String) (xs : List String)
    → p id ≡ false
    → mem id (filter p xs) ≡ false
mem-filter-false p id [] h = refl
mem-filter-false p id (x ∷ xs) h =
    ground (arith, mem-filter-false p id xs h, eq_iff x id, ap p {x = x} {y = id})

pub mem-enqueue-other :
    (id other : String) (m : Manager)
    → mem id m.dirty ≡ true
    → mem id (enqueue other m).dirty ≡ true
unfolding enqueue
mem-enqueue-other id other m h = elim (Bool-cases (mem other m.dirty)) [
  | inl e ↦ rw e h
  | inr e ↦ rw e (mem-append-left id m.dirty (other ∷ []) h)
]

module _ (n : Network) (ns : String) (c : Codecs n.Bytes) (env : Env) where
  last-announce_once :
      (now : ℕ) (id : String) (w : World n) (j : String)
      → (announce_once n ns c env now id w).manager.last j ≡ set_last w.manager.last id now j
  unfolding announce_once
  last-announce_once now id w j = refl

  last-announce_all :
      (clock : String → ℕ) (ids : List String) (w : World n) (j : String)
      → (announce_all n ns c env clock ids w).manager.last j
        ≡ (if mem j ids then clock j else w.manager.last j)
  unfolding announce_all announce_once
  last-announce_all clock [] w j = refl
  last-announce_all clock (x ∷ ids) w j =
      last-announce_all clock ids (announce_once n ns c env (clock x) x w) j
      ∙ ground (arith, eq_iff x j, ap clock {x = x} {y = j})

  manager-announce_all :
      (clock : String → ℕ) (ids : List String) (w : World n)
      → ((announce_all n ns c env clock ids w).manager.dirty ≡ w.manager.dirty)
        × ((announce_all n ns c env clock ids w).manager.trigger ≡ w.manager.trigger)
  unfolding announce_all announce_once
  manager-announce_all clock [] w = (refl, refl)
  manager-announce_all clock (x ∷ ids) w =
      manager-announce_all clock ids (announce_once n ns c env (clock x) x w)

  -- A round changes the times of the jobs that it announces, and nothing else of the manager.
  pub last-process :
      (now : ℕ) (clock : String → ℕ) (w : World n) (id : String)
      → (process n ns c env now clock w).manager.last id
        ≡ (if mem id (due now w.manager) then clock id else w.manager.last id)
  unfolding process
  last-process now clock w id = last-announce_all clock (due now w.manager) w id

  pub manager-process :
      (now : ℕ) (clock : String → ℕ) (w : World n)
      → ((process n ns c env now clock w).manager.dirty ≡ w.manager.dirty)
        × ((process n ns c env now clock w).manager.trigger ≡ w.manager.trigger)
  unfolding process
  manager-process now clock w = manager-announce_all clock (due now w.manager) w

  -- A candidate that is due is announced by a round of the loop, which records the time; and it is
  -- not due again for any round before that time and the interval are over, if that time is not
  -- zero.
  pub announced_once :
      (now later : ℕ) (clock : String → ℕ) (w : World n) (id : String)
      → mem id w.manager.dirty ≡ true
      → is_due now w.manager id ≡ true
      → 0 < clock id
      → later < clock id + announce_interval
      → let m = (process n ns c env now clock w).manager in
        (m.last id ≡ clock id) × (mem id (due later m) ≡ false)
  unfolding process due is_due
  announced_once now later clock w id listed ready started early = (recorded, not_due)
    where
      m : Manager
      m = (process n ns c env now clock w).manager

      recorded : m.last id ≡ clock id
      recorded =
          last-announce_all clock (due now w.manager) w id
          ∙ rw (mem-filter (is_due now w.manager) id w.manager.dirty ready listed) refl

      not_due : mem id (due later m) ≡ false
      not_due = mem-filter-false (is_due later m) id m.dirty (ground (arith, recorded))
