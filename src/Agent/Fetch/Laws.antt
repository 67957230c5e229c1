-- ===== src/Agent/Fetch/Laws.antt =====
-- What FetchAny makes of its providers, and of what a seeder sends.
use Prim.Native.String.{◌++◌}
use mathlib.Core.List.{List, [], ◌∷◌, ◌++◌ as append}
use mc_prototype.Base.{
  String, none, some, true, false, ◌≡◌, ◌≢◌, sym, refl, ap, ◌∙◌, All, arith, eq_refl, str_ne,
  filter,
}
use mc_prototype.Task.Types.{Provider}
use mc_prototype.Text.Clean.{file_join}
use mc_prototype.Seeder.{Source, seed_handler, seed_handler_found, seed_handler_missing}
use mc_prototype.Agent.Attempt.{done, error, crash}
use mc_prototype.Agent.Fetch.{
  Wire, Disk, Files, file, link, FetchResult, size, dial, store_body, save, link_input, or_next,
  fetch_from_provider, fetch_any, fetch_next, dial_at, is_empty,
}
use mc_prototype.Text.{has_prefix}
use mc_prototype.Agent.Fetch.{remove_all}

-- No provider of a list can be reached.
abbrev pub Unreachable : Wire → String → List Provider → Type 0
Unreachable w root_cid ps = All (λ p. (e : String) × (dial w root_cid p ≡ error e)) ps

-- The calls of package os succeed, and the root's file is neither `input` nor below it.
pub record Writable (d : Disk) (root_cid dir : String) : Type 0 where
  pub made : d.mkdir_all dir ≡ none
  pub created : d.create (file_join dir (root_cid ++ ".part")) ≡ none
  pub renamed : d.rename (file_join dir (root_cid ++ ".part")) (file_join dir root_cid) ≡ none
  pub linked : d.symlink root_cid (file_join dir "input") ≡ none
  pub apart : file_join dir root_cid ≢ file_join dir "input"
  pub outside : has_prefix (file_join dir root_cid) (file_join dir "input" ++ "/") ≡ false

module _ (w : Wire) (d : Disk) (root_cid dir : String) where
  fetch_next-Unreachable :
      (before rest : List Provider) (last : String) (fs : Files)
      → Unreachable w root_cid before
      → (e : String) × (fetch_next w d root_cid dir (append before rest) last fs
          ≡ fetch_next w d root_cid dir rest e fs)
  unfolding fetch_next fetch_from_provider
  fetch_next-Unreachable [] rest last fs u = (last, refl)
  fetch_next-Unreachable (p ∷ before) rest last fs u =
      let (e, h) = u.0 in
      let (e', same) = fetch_next-Unreachable before rest e fs u.1 in
      (e', rw (h, fetch_next, fetch_from_provider) same)

  stored_body :
      (fs : Files) (body : String)
      → root_cid ≢ "input"
      → Writable d root_cid dir
      → let (fs', r) = store_body d root_cid dir fs (body, none) in
        (r ≡ done (record { local_path = file_join dir root_cid; bytes = size body }))
        × (fs' (file_join dir root_cid) ≡ some (file body))
        × (fs' (file_join dir "input") ≡ some (link root_cid))
  unfolding store_body save link_input remove_all
  stored_body fs body named ok =
      let final = file_join dir root_cid in
      let input = file_join dir "input" in
      ground (
        arith,
        ok.made,
        ok.created,
        ok.renamed,
        ok.linked,
        ok.outside,
        str_ne root_cid "input" named,
        eq_refl final,
        eq_refl input,
        str_ne input final (λ e. ok.apart (sym e)),
      )

  fetch_next_reached :
      (p : Provider) (rest : List Provider) (last : String) (fs : Files) (body : String)
      (r : FetchResult)
      → dial w root_cid p ≡ done tt
      → w.receive p.peer_id root_cid ≡ (body, none)
      → (store_body d root_cid dir fs (body, none)).1 ≡ done r
      → fetch_next w d root_cid dir (p ∷ rest) last fs ≡ store_body d root_cid dir fs (body, none)
  unfolding fetch_next fetch_from_provider or_next
  fetch_next_reached p rest last fs body r reached got stored = ground (arith, reached, got, stored)

  -- The first provider that is reached settles the fetch.
  fetch_any_received :
      (before : List Provider) (p : Provider) (rest : List Provider) (fs : Files) (body : String)
      → Unreachable w root_cid before
      → dial w root_cid p ≡ done tt
      → w.receive p.peer_id root_cid ≡ (body, none)
      → root_cid ≢ "input"
      → Writable d root_cid dir
      → let (fs', r) = fetch_any w d root_cid dir (append before (p ∷ rest)) fs in
        (r ≡ done (record { local_path = file_join dir root_cid; bytes = size body }))
        × (fs' (file_join dir root_cid) ≡ some (file body))
        × (fs' (file_join dir "input") ≡ some (link root_cid))
  unfolding fetch_any
  fetch_any_received before p rest fs body u reached got named ok =
      let (e, same) = fetch_next-Unreachable before (p ∷ rest) "no providers" fs u in
      let stored = stored_body fs body named ok in
      rw (same ∙ fetch_next_reached p rest e fs body _ reached got stored.0) stored

  -- Where the first provider that can be reached is a seeder that can read the whole file of the root,
  -- whose stream arrives as it was sent, the calls of package os succeed, and the root is neither empty
  -- nor `input` nor another name of that file or of one below it, FetchAny succeeds: the root's file has
  -- the seeder's content, `input` is a link to it, and the size is the content's.
  pub fetch_any-seed_handler :
      (s : Source) (before : List Provider) (p : Provider) (rest : List Provider) (fs : Files)
      (content : String)
      → Unreachable w root_cid before
      → dial w root_cid p ≡ done tt
      → w.receive p.peer_id root_cid ≡ (seed_handler s (some root_cid), none)
      → s.files (file_join s.base root_cid) ≡ some (content, true)
      → root_cid ≢ ""
      → root_cid ≢ "input"
      → Writable d root_cid dir
      → let (fs', r) = fetch_any w d root_cid dir (append before (p ∷ rest)) fs in
        (r ≡ done (record { local_path = file_join dir root_cid; bytes = size content }))
        × (fs' (file_join dir root_cid) ≡ some (file content))
        × (fs' (file_join dir "input") ≡ some (link root_cid))
  fetch_any-seed_handler s before p rest fs content u reached got found set named ok =
      let whole = got ∙ ap (λ b. (b, none)) (seed_handler_found s root_cid content set found) in
      fetch_any_received before p rest fs content u reached whole named ok

  -- Where the first provider that can be reached is a seeder that cannot open the file, whose stream
  -- arrives as it was sent, the calls of package os succeed, and the root is not `input` or another name
  -- of that file or of one below it, FetchAny succeeds as well, with an empty file, whatever providers
  -- follow.
  pub missing_file_fetched :
      (s : Source) (before : List Provider) (p : Provider) (rest : List Provider) (fs : Files)
      → Unreachable w root_cid before
      → dial w root_cid p ≡ done tt
      → w.receive p.peer_id root_cid ≡ (seed_handler s (some root_cid), none)
      → s.files (file_join s.base root_cid) ≡ none
      → root_cid ≢ "input"
      → Writable d root_cid dir
      → let (fs', r) = fetch_any w d root_cid dir (append before (p ∷ rest)) fs in
        (r ≡ done (record { local_path = file_join dir root_cid; bytes = 0 }))
        × (fs' (file_join dir root_cid) ≡ some (file ""))
  missing_file_fetched s before p rest fs u reached got missing named ok =
      let empty = got ∙ ap (λ b. (b, none)) (seed_handler_missing s root_cid missing) in
      let (r, stored, linked) = fetch_any_received before p rest fs "" u reached empty named ok in
      (r, stored)

  filter_some :
      (addrs : List String) (a : String) (others : List String)
      → filter w.is_multiaddr addrs ≡ a ∷ others
      → is_empty addrs ≡ false
  filter_some [] a others h = ground (arith, h)
  filter_some (x ∷ addrs) a others h = refl

  dial_crashes :
      (p : Provider) (a : String) (others : List String)
      → p.peer_id ≢ ""
      → filter w.is_multiaddr p.addrs ≡ a ∷ others
      → w.is_multiaddr ("/p2p/" ++ p.peer_id) ≡ false
      → dial w root_cid p ≡ crash
  unfolding dial dial_at
  dial_crashes p a others named some_addr bad =
      ground
        (arith, str_ne p.peer_id "" named, filter_some p.addrs a others some_addr, some_addr, bad)

  -- A provider with an address, before which no provider can be reached, and with a peer id that is
  -- none ends the agent.
  pub bad_peer_id_crashes :
      (before : List Provider) (p : Provider) (a : String) (others : List String)
      (rest : List Provider) (fs : Files)
      → Unreachable w root_cid before
      → p.peer_id ≢ ""
      → filter w.is_multiaddr p.addrs ≡ a ∷ others
      → w.is_multiaddr ("/p2p/" ++ p.peer_id) ≡ false
      → fetch_any w d root_cid dir (append before (p ∷ rest)) fs ≡ (fs, crash)
  unfolding fetch_any fetch_next fetch_from_provider or_next
  bad_peer_id_crashes before p a others rest fs u named some_addr bad =
      let (e, same) = fetch_next-Unreachable before (p ∷ rest) "no providers" fs u in
      let crashed = dial_crashes p a others named some_addr bad in same ∙ ground (arith, crashed)
