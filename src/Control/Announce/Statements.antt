-- ===== src/Control/Announce/Statements.antt =====
-- The table after announcements.
use mathlib.Core.List.{List, [], ◌∷◌}
use mc_prototype.Base.{ℕ, ◌≡◌, refl, String}
use mc_prototype.Dht.Network.{Network}
use mc_prototype.Control.World.{Codecs, World}
use mc_prototype.Control.Requests.{Env}
use mc_prototype.Control.Announce.{due, announce_once, announce_all, process}

module _ (n : Network) (ns : String) (c : Codecs n.Bytes) (env : Env) where
  announce_all_table :
      (clock : String → ℕ) (ids : List String) (w : World n)
      → (announce_all n ns c env clock ids w).table ≡ w.table
  unfolding announce_all announce_once
  announce_all_table clock [] w = refl
  announce_all_table clock (id ∷ ids) w =
      announce_all_table clock ids (announce_once n ns c env (clock id) id w)

  pub process_table :
      (now : ℕ) (clock : String → ℕ) (w : World n)
      → (process n ns c env now clock w).table ≡ w.table
  unfolding process
  process_table now clock w = announce_all_table clock (due now w.manager) w
