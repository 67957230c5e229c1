-- ===== src/Seeder.antt =====
-- pkg/seeder/seed_handler.go, the stream handler that sends files, and cmd/seeder/main.go.
use mc_prototype.Base.{
  List, [], str_ne, arith, true, ◌≡◌, ◌≢◌, String, Option, none, some, Bool, str_eq, if◌then◌else◌,
}
use mc_prototype.Text.Clean.{file_join}
use mc_prototype.Text.Parts.{comma_parts}
use mc_prototype.Dht.Addresses.{Interface}
use mc_prototype.Dht.Start.{Library, Readings, Outcome, failed, up, new_node}

-- What a stream sends: the bytes, up to the point where the handler closes it.
-- `files` is os.Open with io.Copy: what can be read of the file of a path, if it can be opened, and
-- whether that was all. What was read before an error stands in a buffer of bufio.Writer, whose
-- `flushed` part was sent.
pub record Source : Type 0 where
  pub base : String
  pub files : String → Option (String × Bool)
  pub flushed : String → String

sent : Source → Option (String × Bool) → String
sent s none = ""
sent s (some (content, whole)) = if whole then content else s.flushed content

-- MountSeedHandler's handler for a decoded request, `none` where it was no JSON. The client cannot
-- tell the early returns from an empty file: each closes the stream.
unfoldable pub seed_handler : Source → Option String → String
unfolding sent
seed_handler s none = ""
seed_handler s (some root_cid) =
    if str_eq root_cid "" then "" else sent s (s.files (file_join s.base root_cid))

module _ (l : Library) where
  mounted : (String → Source) → String → Option (Outcome l.Host) → Option (Option String → String)
  mounted source base none = none
  mounted source base (some (failed e)) = none
  mounted source base (some (up h)) = some (seed_handler (source base))

  -- main of cmd/seeder: the handler that it mounts for the base directory, or the end by log.Fatalf.
  unfoldable pub seeder_main :
      List Interface
      → Readings
      → (String → Source)
      → (ns bootstrap base : String) → Option (Option String → String)
  unfolding mounted
  seeder_main interfaces r source ns bootstrap base =
      mounted source base
        (new_node l interfaces r ns (if str_eq bootstrap "" then [] else comma_parts bootstrap))

-- A file that can be read as a whole is sent.
pub seed_handler_found :
    (s : Source) (root_cid content : String)
    → root_cid ≢ ""
    → s.files (file_join s.base root_cid) ≡ some (content, true)
    → seed_handler s (some root_cid) ≡ content
unfolding seed_handler sent
seed_handler_found s root_cid content set found = ground (arith, str_ne root_cid "" set, found)

-- A file that cannot be opened is sent as nothing.
pub seed_handler_missing :
    (s : Source) (root_cid : String)
    → s.files (file_join s.base root_cid) ≡ none
    → seed_handler s (some root_cid) ≡ ""
unfolding seed_handler sent
seed_handler_missing s root_cid missing = ground (arith, missing)
