-- ===== src/Control/Create.antt =====
-- createTask of cmd/control/main.go, and the jobs that its flag -create names.
pub mod Statements
pub mod Documents
use mathlib.Core.List.{List, [], ◌∷◌, ◌++◌}
use mc_prototype.Base.{
  ℕ, String, Option, none, some, Bool, true, false, suc64, str_eq, if◌then◌else◌,
}
use mc_prototype.Text.Parts.{comma_parts}
use mc_prototype.Text.{split, trim_space}
use mc_prototype.Dht.Network.{Network}
use mc_prototype.Dht.Json.{Node, put_json}
use mc_prototype.Dht.Cas.{CasError, put_json_cas}
use mc_prototype.Task.Claim.{Verdict, declines, writes}
use mc_prototype.Task.Types.{TaskIndex, no_index}
use mc_prototype.Task.Keys.{key_meta, key_state, key_index}
use mc_prototype.Lease.Store.{Turn, create_job}
use mc_prototype.Control.World.{Codecs, World}
use mc_prototype.Control.Announce.{mem, enqueue}
use mc_prototype.Control.Jobs.{CreateTaskReq, db_job, meta_of, new_state}

-- splitCSV.
unfoldable pub split_csv : String → List String
unfolding comma_parts
split_csv s = if str_eq s "" then [] else comma_parts s

-- The index document with the id, which is added where it is missing.
unfoldable pub index_entry : String → ℕ → TaskIndex → TaskIndex
index_entry id now idx = record idx {
  ids = if mem id idx.ids then idx.ids else idx.ids ++ id ∷ [];
  updated_at = now;
  version = suc64 idx.version;
}

module _ (n : Network) (ns : String) (c : Codecs n.Bytes) where
  old_index : Option n.Bytes → TaskIndex
  old_index none = no_index
  old_index (some b) = (c.index.unmarshal b no_index).0

  -- json.Marshal gives no error for an index.
  index_check : String → ℕ → Option n.Bytes → Verdict (Unit {0}) n.Bytes
  unfolding old_index index_entry
  index_check id now prev = elim (c.index.marshal (index_entry id now (old_index prev))) [
    | none ↦ declines
    | some b ↦ writes b
  ]

  put_index : String → ℕ → Node n × Bool → Node n × Bool
  unfolding index_check
  put_index id now (nd, false) = (nd, false)
  put_index id now (nd, true) =
      let (nd', e) = put_json_cas n ns (λ round. index_check id now) nd (key_index ns) in
      (nd', elim e [ none ↦ true | some x ↦ false ])

  put_state : CreateTaskReq → ℕ → Node n × Bool → Node n × Bool
  unfolding put_index
  put_state q now (nd, false) = (nd, false)
  put_state q now (nd, true) =
      put_index q.id now (put_json n ns c.state nd (key_state q.id) (new_state q.id now))

  -- The Boolean is `err == nil`.
  unfoldable pub create_task : CreateTaskReq → ℕ → Node n → Node n × Bool
  unfolding put_state
  create_task q now nd = put_state q now (put_json n ns c.meta nd (key_meta q.id) (meta_of now q))

  -- One id of -create: the row is made, and the job enqueued, whatever the DHT answers.
  unfoldable pub create_named : Turn → ℕ → ℕ → CreateTaskReq → World n → World n
  create_named turn now later q w = record w {
    table = (create_job turn (db_job later q) w.table).0;
    node = (create_task q now w.node).0;
    manager = enqueue q.id w.manager;
  }

  create_ids :
      (String → Turn) → (String → ℕ) → String → List String → List String → World n → World n
  unfolding create_named
  create_ids turns clock image command [] w = w
  create_ids turns clock image command (id ∷ ids) w = create_ids turns clock image command ids (
      create_named (turns id) (clock id) (clock id)
        (record { id = id; image = image; command = command }) w)

  -- The jobs of the flags -create, -image and -cmd.
  unfoldable pub create_flagged :
      (String → Turn) → (String → ℕ) → String → String → String → World n → World n
  unfolding create_ids
  create_flagged turns clock create image cmd w =
      create_ids turns clock image (comma_parts cmd) (comma_parts create) w
