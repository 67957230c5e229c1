-- ===== src/Control/Loops/Restored.antt =====
-- restoreJobsFromDemand on all queued jobs of the table, over a document store that is a map.
use mc_prototype.Base.{
  ℕ, ◌≡◌, refl, ap, sym, subst, ◌∙◌, String, List, [], ◌∷◌, Option, some, Bool, ◌||◌, Bool-cases,
  inl, inr, true, false, str_eq, arith, map, filter,
}
use mc_prototype.Dht.Network.{Network}
use mc_prototype.Dht.Json.{Node}
use mc_prototype.Dht.Json.Medium.{IsMap}
use mc_prototype.Task.Keys.{key_manifest}
use mc_prototype.Lease.Types.{DbJob, is_queued}
use mc_prototype.Lease.Table.{Row, Table, find_row}
use mc_prototype.Lease.Store.{at, job_of}
use mc_prototype.Lease.Queries.{insert_by, sort_by, oldest_first, list_queued}
use mc_prototype.Control.World.{Codecs, AreFaithful, World}
use mc_prototype.Control.Announce.{mem, enqueue}
use mc_prototype.Control.Announce.Laws.{head_ne, only_head}
use mc_prototype.Control.Index.Laws.{IsReadable}
use mc_prototype.Control.Jobs.Waiting.{Waiting}
use mc_prototype.Control.Loops.{restore_job, restore_all, restore_listed, restore_jobs}
use mc_prototype.Control.Loops.Restart.{
  restored-Waiting, restore_job-IsReadable, restore_job-Waiting, restore_job-manifest,
}

abbrev job_ids : List DbJob → List String
job_ids js = map (λ j. j.id) js

abbrev pub row_ids : List Row → List String
row_ids rs = map (λ r. r.id) rs

mem-insert_by :
    (before : Row → Row → Bool) (id : String) (r : Row) (rs : List Row)
    → mem id (row_ids (insert_by before r rs)) ≡ (str_eq r.id id || mem id (row_ids rs))
unfolding insert_by
mem-insert_by before id r [] = refl
mem-insert_by before id r (x ∷ rs) = ground (arith, mem-insert_by before id r rs)

mem-sort_by :
    (before : Row → Row → Bool) (id : String) (rs : List Row)
    → mem id (row_ids (sort_by before rs)) ≡ mem id (row_ids rs)
unfolding sort_by
mem-sort_by before id [] = refl
mem-sort_by before id (r ∷ rs) =
    mem-insert_by before id r (sort_by before rs)
    ∙ ap (λ (b : Bool). str_eq r.id id || b) (mem-sort_by before id rs)

-- A row that the filter keeps is found among the kept ones.
pub mem-filter-found :
    (p : Row → Bool) (id : String) (t : Table) (row : Row)
    → find_row id t ≡ some row
    → p row ≡ true
    → mem id (row_ids (filter p t)) ≡ true
unfolding find_row
mem-filter-found p id [] row h k = absurd (ground arith)
mem-filter-found p id (r ∷ t) row h k =
    ground (arith, mem-filter-found p id t row, ap p {x = r} {y = row})

job_ids_of_rows :
    (rs : List Row) → job_ids (map (λ r. record (job_of r) { retry_count = 0 }) rs) ≡ row_ids rs
unfolding job_of
job_ids_of_rows [] = refl
job_ids_of_rows (r ∷ rs) = ap (λ (l : List String). r.id ∷ l) (job_ids_of_rows rs)

module _ (n : Network) (ns : String) (c : Codecs n.Bytes) (holds : Node n → String → Option n.Bytes)
    (m : IsMap n ns holds) (f : AreFaithful n.tombstone c) (clock shards : String → ℕ) where
  others-Waiting :
      (js : List DbJob) (w : World n) (id : String) (shard : ℕ)
      → mem id (job_ids js) ≡ false
      → Waiting n ns c holds m f id shard w
      → Waiting n ns c holds m f id shard (restore_all n ns c clock shards js w)
  unfolding restore_all
  others-Waiting [] w id shard h a = a
  others-Waiting (j ∷ js) w id shard h a =
      others-Waiting js (restore_job n ns c (clock j.id) (shards j.id) j w) id shard
        (ground (arith, h))
        (restore_job-Waiting n ns c holds m f (clock j.id) (shards j.id) j w id shard
          (head_ne id j.id (job_ids js) h) a)

  restore_all-Waiting :
      (js : List DbJob) (w : World n) (id : String)
      → mem id (job_ids js) ≡ true
      → IsReadable n ns c holds m f (shards id) w.node
      → Waiting n ns c holds m f id (shards id) (restore_all n ns c clock shards js w)
  unfolding restore_all
  restore_all-Waiting [] w id h legible = absurd (ground arith)
  restore_all-Waiting (j ∷ js) w id h legible = elim (Bool-cases (mem id (job_ids js))) [
    | inl later ↦
        restore_all-Waiting js (restore_job n ns c (clock j.id) (shards j.id) j w) id later (
          restore_job-IsReadable n ns c holds m f (clock j.id) (shards j.id) j w (shards id)
            legible)
    | inr last ↦
        let own : j.id ≡ id = only_head id j.id (job_ids js) h last in
        others-Waiting js (restore_job n ns c (clock j.id) (shards j.id) j w) id (shards id) last (
          subst
            (λ (k : String).
              Waiting n ns c holds m f k (shards k)
                (restore_job n ns c (clock j.id) (shards j.id) j w))
            own
            (restored-Waiting n ns c holds m f (clock j.id) (shards j.id) j w (
              subst (λ (k : String). IsReadable n ns c holds m f (shards k) w.node) (sym own)
                legible)))
  ]

  restore_all-manifest :
      (js : List DbJob) (w : World n) (id : String)
      → holds (restore_all n ns c clock shards js w).node (key_manifest id)
        ≡ holds w.node (key_manifest id)
  unfolding restore_all
  restore_all-manifest [] w id = refl
  restore_all-manifest (j ∷ js) w id =
      restore_all-manifest js (restore_job n ns c (clock j.id) (shards j.id) j w) id
      ∙ restore_job-manifest n ns c holds m f (clock j.id) (shards j.id) j w id

  last-restore_all :
      (js : List DbJob) (w : World n)
      → (restore_all n ns c clock shards js w).manager.last ≡ w.manager.last
  unfolding restore_all restore_job enqueue
  last-restore_all [] w = refl
  last-restore_all (j ∷ js) w =
      last-restore_all js (restore_job n ns c (clock j.id) (shards j.id) j w)

  module _ (s : ℕ) (w : World n) where
    listed_jobs : List DbJob
    listed_jobs =
        map (λ r. record (job_of r) { retry_count = 0 })
          (sort_by oldest_first (filter (λ r. is_queued r.status) w.table))

    restores_listed :
        restore_jobs n ns c (at s) clock shards w ≡ restore_all n ns c clock shards listed_jobs w
    unfolding restore_jobs list_queued restore_listed listed_jobs
    restores_listed = refl

    -- Every queued job of the table waits again.
    pub restore_jobs-Waiting :
        (id : String) (row : Row)
        → find_row id w.table ≡ some row
        → is_queued row.status ≡ true
        → IsReadable n ns c holds m f (shards id) w.node
        → Waiting n ns c holds m f id (shards id) (restore_jobs n ns c (at s) clock shards w)
    unfolding listed_jobs
    restore_jobs-Waiting id row h q legible =
        subst (Waiting n ns c holds m f id (shards id)) (sym restores_listed) (
          restore_all-Waiting listed_jobs w id
            (ap (mem id)
                (job_ids_of_rows (sort_by oldest_first (filter (λ r. is_queued r.status) w.table)))
              ∙ mem-sort_by oldest_first id (filter (λ r. is_queued r.status) w.table)
              ∙ mem-filter-found (λ r. is_queued r.status) id w.table row h q)
            legible)

    pub restore_jobs-manifest :
        (id : String)
        → holds (restore_jobs n ns c (at s) clock shards w).node (key_manifest id)
          ≡ holds w.node (key_manifest id)
    restore_jobs-manifest id =
        ap (λ (x : World n). holds x.node (key_manifest id)) restores_listed
        ∙ restore_all-manifest listed_jobs w id

    pub last-restore_jobs :
        (restore_jobs n ns c (at s) clock shards w).manager.last ≡ w.manager.last
    last-restore_jobs =
        ap (λ (x : World n). x.manager.last) restores_listed ∙ last-restore_all listed_jobs w
