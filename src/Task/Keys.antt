-- ===== src/Task/Keys.antt =====
-- The DHT keys of internal/task/types.go, index_sharded.go and cmd/control/control_http.go.
pub mod Laws
pub mod Distinct
use Prim.Native.String.{◌++◌}
use mc_prototype.Base.{ℕ, zero, suc, ◌/◌, ◌%◌, String}

unfoldable pub key_meta : String → String
key_meta id = "task/" ++ (id ++ "/meta")

unfoldable pub key_state : String → String
key_state id = "task/" ++ (id ++ "/state")

unfoldable pub key_ws : String → String
key_ws id = "task/" ++ (id ++ "/ws")

unfoldable pub key_manifest : String → String
key_manifest id = "task/" ++ (id ++ "/manifest")

unfoldable pub key_index : String → String
key_index ns = "ns/" ++ (ns ++ "/task/index")

unfoldable pub key_lease : String → String
key_lease id = "task/" ++ (id ++ "/lease")

unfoldable pub key_task_ad : String → String → String
key_task_ad ns id = "ad/" ++ (ns ++ ("/task/" ++ id))

unfoldable pub key_p2p_manifest_mirror : String → String
key_p2p_manifest_mirror id = "p2p/" ++ (id ++ "/manifest")

-- fmt's %02d of a number below 100.
digit : ℕ → String
digit zero = "0"
digit (suc zero) = "1"
digit (suc (suc zero)) = "2"
digit (suc (suc (suc zero))) = "3"
digit (suc (suc (suc (suc zero)))) = "4"
digit (suc (suc (suc (suc (suc zero))))) = "5"
digit (suc (suc (suc (suc (suc (suc zero)))))) = "6"
digit (suc (suc (suc (suc (suc (suc (suc zero))))))) = "7"
digit (suc (suc (suc (suc (suc (suc (suc (suc zero)))))))) = "8"
digit (suc (suc (suc (suc (suc (suc (suc (suc (suc n))))))))) = "9"

pub two_digits : ℕ → String
unfolding digit
two_digits n = digit (n / 10) ++ digit (n % 10)

abbrev pub task_index_shard_count : ℕ
task_index_shard_count = 32

unfoldable pub key_index_shard : String → ℕ → String
unfolding two_digits
key_index_shard ns shard = "ns/" ++ (ns ++ ("/task/index/" ++ two_digits shard))
