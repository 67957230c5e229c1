-- ===== src/Agent/Fetch.antt =====
-- FetchFromProvider and FetchAny of pkg/agent/fetch.go. libp2p and the calls of package os are
-- parameters: each gives its error's text, if any.
pub mod Laws
use Prim.Native.String.{[], ◌∷◌, ◌++◌}
use mathlib.Core.List.{List, [], ◌∷◌}
use mc_prototype.Base.{
  false, true, ℕ, zero, suc, String, Option, none, some, Bool, ◌||◌, not, str_eq, filter,
  if◌then◌else◌,
}
use mc_prototype.Task.Types.{Provider}
use mc_prototype.Text.Clean.{file_join}
use mc_prototype.Dht.Json.{store_local, delete_local}
use mc_prototype.Agent.Attempt.{Attempt, done, error, crash, ◌>>◌, wrapped}
use mc_prototype.Text.{has_prefix}

-- ma.NewMultiaddr, peer.AddrInfoFromP2pAddr of an address and a peer id, the host's Connect and
-- NewStream, the encoder, and what io.Copy takes from the stream, with its error.
pub record Wire : Type 0 where
  pub is_multiaddr : String → Bool
  pub addr_info : String → String → Option String
  pub connect : String → Option String
  pub new_stream : String → Option String
  pub send : String → String → Option String
  pub receive : String → String → String × Option String

-- os.MkdirAll, os.Create, os.Rename and os.Symlink, and what a failing copy leaves of a text.
pub record Disk : Type 0 where
  pub mkdir_all : String → Option String
  pub create : String → Option String
  pub rename : String → String → Option String
  pub symlink : String → String → Option String
  pub copied : String → String

pub data Entry : Type 0 where
  file : String → Entry
  link : String → Entry

abbrev pub Files : Type 0
Files = String → Option Entry

pub record FetchResult : Type 0 where
  pub local_path : String
  pub bytes : ℕ

abbrev pub size : String → ℕ
size [] = 0
size (c ∷ s) = suc (size s)

abbrev pub is_empty : List String → Bool
is_empty [] = true
is_empty (s ∷ rest) = false

-- ma.StringCast panics where its text is no multiaddress.
dial_at : Wire → String → String → List String → Attempt (Unit {0})
dial_at w root_cid id [] = error "no valid addrs"
dial_at w root_cid id (a ∷ others) = if not (w.is_multiaddr ("/p2p/" ++ id)) then crash else do
  wrapped "peer info: " (w.addr_info a id)
  wrapped "connect: " (w.connect id)
  wrapped "new stream: " (w.new_stream id)
  wrapped "send req: " (w.send id root_cid)

-- FetchFromProvider up to the request.
unfoldable pub dial : Wire → String → Provider → Attempt (Unit {0})
unfolding dial_at
dial w root_cid p =
    if str_eq p.peer_id "" || is_empty p.addrs
    then error "invalid provider"
    else dial_at w root_cid p.peer_id (filter w.is_multiaddr p.addrs)

-- copyFile, whose error is ignored.
copy_file : Disk → String → String → Files → Files
copy_file d src dst fs = elim (fs src) [
  | none ↦ fs
  | some (link target) ↦ fs
  | some (file content) ↦ elim (d.create dst) [
    | some e ↦ fs
    | none ↦ store_local fs dst (file (d.copied content))
  ]
]

-- os.RemoveAll: the path, and everything below it.
unfoldable pub remove_all : Files → String → Files
remove_all fs path p = if str_eq path p || has_prefix p (path ++ "/") then none else fs p

-- The file `input` of the directory stands for the one that was fetched.
link_input : Disk → String → String → Files → Files
unfolding copy_file remove_all
link_input d root_cid dir fs =
    let path = file_join dir "input" in
    let cleared = remove_all fs path in
    if str_eq root_cid "input" then fs else elim (d.symlink root_cid path) [
      | none ↦ store_local cleared path (link root_cid)
      | some e ↦ copy_file d (file_join dir root_cid) path cleared
    ]

save : Disk → String → String → Files → String × Option String → Files × Attempt FetchResult
unfolding link_input
save d root_cid dir fs (body, some e) =
    (store_local fs (file_join dir (root_cid ++ ".part")) (file body), error ("recv: " ++ e))
save d root_cid dir fs (body, none) =
    let part = file_join dir (root_cid ++ ".part") in
    let final = file_join dir root_cid in
    elim (d.rename part final) [
      | some e ↦ (store_local fs part (file body), error e)
      | none ↦ (
        link_input d root_cid dir
            (store_local (delete_local (store_local fs part (file body)) part) final (file body)),
        done (record { local_path = final; bytes = size body }),
      )
    ]

-- FetchFromProvider behind the request: the body goes into a file beside the final one.
unfoldable pub store_body :
    Disk → String → String → Files → String × Option String → Files × Attempt FetchResult
unfolding save
store_body d root_cid dir fs body = elim (d.mkdir_all dir) [
  | some e ↦ (fs, error e)
  | none ↦ elim (d.create (file_join dir (root_cid ++ ".part"))) [
    | some e ↦ (fs, error e)
    | none ↦ save d root_cid dir fs body
  ]
]

module _ (w : Wire) (d : Disk) (root_cid dir : String) where
  unfoldable pub fetch_from_provider : Provider → Files → Files × Attempt FetchResult
  fetch_from_provider p fs = elim (dial w root_cid p) [
    | error e ↦ (fs, error e)
    | crash ↦ (fs, crash)
    | done _ ↦ store_body d root_cid dir fs (w.receive p.peer_id root_cid)
  ]

  or_next :
      (Files → String → Files × Attempt FetchResult)
      → Files × Attempt FetchResult
      → Files × Attempt FetchResult
  or_next next (fs, error e) = next fs e
  or_next next (fs, crash) = (fs, crash)
  or_next next (fs, done r) = (fs, done r)

  fetch_next : List Provider → String → Files → Files × Attempt FetchResult
  unfolding or_next
  fetch_next [] last fs = (fs, error last)
  fetch_next (p ∷ others) last fs =
      or_next (λ fs' e. fetch_next others e fs') (fetch_from_provider p fs)

  -- FetchAny.
  unfoldable pub fetch_any : List Provider → Files → Files × Attempt FetchResult
  unfolding fetch_next
  fetch_any providers fs = fetch_next providers "no providers" fs
