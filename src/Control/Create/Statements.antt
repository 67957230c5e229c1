-- ===== src/Control/Create/Statements.antt =====
-- The statements that the flag -create runs on the table.
use mathlib.Core.List.{List, [], ◌∷◌}
use mc_prototype.Base.{ℕ, String, refl}
use mc_prototype.Dht.Network.{Network}
use mc_prototype.Lease.Store.{Turn}
use mc_prototype.Lease.Statements.{IsHistory, IsHistory-same, IsHistory-then, create_job-IsHistory}
use mc_prototype.Control.World.{Codecs, World}
use mc_prototype.Control.Jobs.{CreateTaskReq, db_job}
use mc_prototype.Text.Parts.{comma_parts}
use mc_prototype.Control.Create.{create_named, create_ids, create_flagged}

module _ (n : Network) (ns : String) (c : Codecs n.Bytes) where
  create_named-IsHistory :
      (turn : Turn) (now later : ℕ) (q : CreateTaskReq) (w : World n)
      → IsHistory w.table (create_named n ns c turn now later q w).table
  unfolding create_named db_job
  create_named-IsHistory turn now later q w =
      create_job-IsHistory turn (db_job later q) w.table refl

  create_ids-IsHistory :
      (turns : String → Turn) (clock : String → ℕ) (image : String) (command ids : List String)
      (w : World n)
      → IsHistory w.table (create_ids n ns c turns clock image command ids w).table
  unfolding create_ids
  create_ids-IsHistory turns clock image command [] w = IsHistory-same w.table
  create_ids-IsHistory turns clock image command (id ∷ ids) w =
      let q : CreateTaskReq = record { id = id; image = image; command = command } in
      let w' = create_named n ns c (turns id) (clock id) (clock id) q w in
      IsHistory-then w.table w'.table _
        (create_named-IsHistory (turns id) (clock id) (clock id) q w)
        (create_ids-IsHistory turns clock image command ids w')

  pub create_flagged-IsHistory :
      (turns : String → Turn) (clock : String → ℕ) (create image cmd : String) (w : World n)
      → IsHistory w.table (create_flagged n ns c turns clock create image cmd w).table
  unfolding create_flagged
  create_flagged-IsHistory turns clock create image cmd w =
      create_ids-IsHistory turns clock image (comma_parts cmd) (comma_parts create) w
