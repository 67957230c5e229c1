-- ===== src/Control/Loops/Recovered.antt =====
-- What a tick of requeueLoop makes of a job whose lease is over, over a document store that is a map.
use mc_prototype.Base.{
  ℕ, ◌≡◌, ◌≢◌, refl, ap, sym, subst, ◌∙◌, String, List, [], ◌∷◌, Option, some, Bool-cases, inl, inr,
  true, str_eq, eq_iff, arith, filter,
}
use mc_prototype.Dht.Network.{Network}
use mc_prototype.Dht.Json.{Node}
use mc_prototype.Dht.Json.Medium.{IsMap}
use mc_prototype.Dht.Json.Documents.{read_doc}
use mc_prototype.Task.Types.{no_state, no_index}
use mc_prototype.Task.Keys.{key_state, key_index_shard}
use mc_prototype.Task.Keys.Laws.{index_ne_state}
use mc_prototype.Task.Keys.Distinct.{lease_ne_index, lease_ne_any_state, state_ne_other}
use mc_prototype.Lease.Table.{Row, find_row}
use mc_prototype.Lease.Update.{requeue_guard, requeue_change}
use mc_prototype.Lease.Store.{Turn, at}
use mc_prototype.Lease.Queries.{list_expired_leases}
use mc_prototype.Control.World.{Codecs, AreFaithful, World}
use mc_prototype.Control.Announce.{mem}
use mc_prototype.Control.Index.Laws.{Listed}
use mc_prototype.Control.Jobs.Waiting.{Waiting}
use mc_prototype.Control.Loops.{
  requeued_state, requeue_expired, requeue_all, requeue_listed, requeue_tick,
}
use mc_prototype.Control.Loops.Laws.{requeue_announces, requeue_missed}
use mc_prototype.Control.Loops.Restored.{row_ids, mem-filter-found}
use mc_prototype.Control.Loops.Requeues.{holds-requeue_expired, mem-requeue_expired, other_row}

module _ (n : Network) (ns : String) (c : Codecs n.Bytes) (holds : Node n → String → Option n.Bytes)
    (m : IsMap n ns holds) (f : AreFaithful n.tombstone c) where
  module _ (id : String) (shard : ℕ) (row : Row) where
    -- The job has the row, and a shard lists it; or it was requeued and waits.
    abbrev pub Lost : World n → Type 0
    Lost w = (find_row id w.table ≡ some row) × Listed n ns c holds m f id shard w.node

    abbrev pub Back : World n → Type 0
    Back w = (find_row id w.table ≡ some (requeue_change row)) × Waiting n ns c holds m f id shard w

    kept-Listed :
        (turn : Turn) (now : ℕ) (x : String) (w : World n)
        → Listed n ns c holds m f id shard w.node
        → Listed n ns c holds m f id shard (requeue_expired n ns c turn now x w).node
    kept-Listed turn now x w l = record {
      index = l.index;
      there =
          ap (read_doc c.index no_index) (
            holds-requeue_expired n ns c holds m f now x turn w (key_index_shard ns shard)
              (λ e. index_ne_state ns x shard (sym e)) (lease_ne_index ns x shard))
          ∙ l.there;
      has = l.has;
    }

    own_step :
        (s now : ℕ) (w : World n)
        → requeue_guard s row ≡ true
        → Lost w
        → Back (requeue_expired n ns c (at s) now id w)
    unfolding requeued_state
    own_step s now w g (h, l) =
        let (requeued_row, mirror, enqueued) =
          requeue_announces n ns c holds m f s now id w row h g in
        (
          requeued_row,
          record {
            state =
                requeued_state id now (read_doc c.state no_state (holds w.node (key_state id))).0;
            stored = mirror.state;
            queued = refl;
            listed = kept-Listed (at s) now id w l;
            enqueued = enqueued;
          },
        )

    other_Lost :
        (s now : ℕ) (x : String) (w : World n)
        → x ≢ id
        → Lost w
        → Lost (requeue_expired n ns c (at s) now x w)
    other_Lost s now x w d (h, l) =
        (other_row n ns c holds m f now x s w id row d h, kept-Listed (at s) now x w l)

    other_Back :
        (s now : ℕ) (x : String) (w : World n)
        → x ≢ id
        → Back w
        → Back (requeue_expired n ns c (at s) now x w)
    other_Back s now x w d (h, a) = (
      other_row n ns c holds m f now x s w id (requeue_change row) d h,
      record {
        state = a.state;
        stored =
            ap (read_doc c.state no_state) (
              holds-requeue_expired n ns c holds m f now x (at s) w (key_state id)
                (state_ne_other ns id x d) (lease_ne_any_state ns id x))
            ∙ a.stored;
        queued = a.queued;
        listed = kept-Listed (at s) now x w a.listed;
        enqueued = mem-requeue_expired n ns c holds m f now x (at s) w id a.enqueued;
      },
    )

    -- A second requeue of the job misses its row.
    own_Back : (s now : ℕ) (w : World n) → Back w → Back (requeue_expired n ns c (at s) now id w)
    unfolding requeue_guard requeue_change
    own_Back s now w (h, a) = subst Back (sym (requeue_missed n ns c s now id w (rw h refl))) (h, a)

    module _ (instants : String → ℕ) (now : ℕ) where
      abbrev tried : List String → World n → World n
      tried ids w = requeue_all n ns c (λ x. at (instants x)) now ids w

      any_Back :
          (x : String) (w : World n)
          → Back w
          → Back (requeue_expired n ns c (at (instants x)) now x w)
      any_Back x w b = elim (Bool-cases (str_eq x id)) [
        | inl own ↦
            subst (λ (k : String). Back (requeue_expired n ns c (at (instants k)) now k w))
              (sym ((eq_iff x id).0 own)) (own_Back (instants id) now w b)
        | inr other ↦
            other_Back (instants x) now x w (λ (e : x ≡ id). ground (arith, other, eq_iff x id, e))
              b
      ]

      all_Back : (ids : List String) (w : World n) → Back w → Back (tried ids w)
      unfolding requeue_all
      all_Back [] w b = b
      all_Back (x ∷ ids) w b = all_Back ids _ (any_Back x w b)

      all_Lost :
          (ids : List String) (w : World n)
          → mem id ids ≡ true
          → requeue_guard (instants id) row ≡ true
          → Lost w
          → Back (tried ids w)
      unfolding requeue_all
      all_Lost [] w h g l = absurd (ground arith)
      all_Lost (x ∷ ids) w h g l = elim (Bool-cases (str_eq x id)) [
        | inl own ↦ all_Back ids _ (
            subst (λ (k : String). Back (requeue_expired n ns c (at (instants k)) now k w))
              (sym ((eq_iff x id).0 own)) (own_step (instants id) now w g l))
        | inr other ↦ all_Lost ids _ (ground (arith, h, other)) g (
            other_Lost (instants x) now x w (λ (e : x ≡ id). ground (arith, other, eq_iff x id, e))
              l)
      ]

      -- Every job whose lease was over when the tick began, and that a shard lists, waits again.
      pub requeue_tick-Back :
          (s : ℕ) (w : World n)
          → requeue_guard s row ≡ true
          → requeue_guard (instants id) row ≡ true
          → Lost w
          → Back (requeue_tick n ns c (at s) (λ x. at (instants x)) now w)
      unfolding requeue_tick list_expired_leases requeue_listed
      requeue_tick-Back s w g g' l =
          all_Lost (row_ids (filter (requeue_guard s) w.table)) w
            (mem-filter-found (requeue_guard s) id w.table row l.0 g) g' l
