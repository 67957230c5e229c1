-- ===== src/Control/Manifests/Statements.antt =====
-- The statements that manifestHandler runs on the table.
use mc_prototype.Base.{ℕ, ◌+◌, String, Option, none, some, Bool, true, false, Bool-cases, inl, inr}
use mc_prototype.Dht.Network.{Network}
use mc_prototype.Dht.Json.{Node, put_json}
use mc_prototype.Task.Types.{Manifest}
use mc_prototype.Task.Keys.{key_manifest, key_p2p_manifest_mirror}
use mc_prototype.Lease.Types.{Result, ok, err}
use mc_prototype.Lease.Store.{Turn, attach_manifest}
use mc_prototype.Lease.Table.{Table}
use mc_prototype.Lease.Statements.{IsHistory, IsHistory-same, attach_manifest-IsHistory}
use mc_prototype.Control.World.{Codecs, World, ManifestMirror}
use mc_prototype.Control.Requests.{Env, Request, require_auth, path_parts, three_parts}
use mc_prototype.Control.Manifests.{
  db_manifest, manifest_ttl, stamp, validate_manifest, manifest_attached, manifest_mirrored,
  manifest_stored, store_manifest, manifest_checked, manifest_body, manifest_handler,
}

module _ (n : Network) (ns : String) (c : Codecs n.Bytes)
    (decodes_peer parses_addr : String → Bool) where
  manifest_attached-IsHistory :
      (id : String) (t : Table) (w : World n) (r : Result (Unit {0}))
      → IsHistory t w.table
      → IsHistory t (manifest_attached n ns c decodes_peer parses_addr id w r).0.table
  unfolding manifest_attached
  manifest_attached-IsHistory id t w (err e) h = h
  manifest_attached-IsHistory id t w (ok _) h = h

  manifest_mirrored-IsHistory :
      (turn : Turn) (id : String) (man : Manifest) (w : World n) (nd : Node n) (done : Bool)
      → IsHistory w.table
          (manifest_mirrored n ns c decodes_peer parses_addr turn id man w (nd, done)).0.table
  unfolding manifest_mirrored
  manifest_mirrored-IsHistory turn id man w nd false = IsHistory-same w.table
  manifest_mirrored-IsHistory turn id man w nd true =
      let (t, r) = attach_manifest turn id (db_manifest man) w.table in
      manifest_attached-IsHistory id w.table (record w { node = nd; table = t }) r
        (attach_manifest-IsHistory turn id (db_manifest man) w.table)

  manifest_stored-IsHistory :
      (turn : Turn) (now : ℕ) (id : String) (man : Manifest) (w : World n) (nd : Node n)
      (done : Bool)
      → IsHistory w.table
          (manifest_stored n ns c decodes_peer parses_addr turn now id man w (nd, done)).0.table
  unfolding manifest_stored
  manifest_stored-IsHistory turn now id man w nd false = IsHistory-same w.table
  manifest_stored-IsHistory turn now id man w nd true =
      let m : ManifestMirror = record { providers = man.providers; exp = now + manifest_ttl } in
      let (nd', put) = put_json n ns c.mirror nd (key_p2p_manifest_mirror id) m in
      manifest_mirrored-IsHistory turn id man w nd' put

  manifest_checked-IsHistory :
      (turn : Turn) (now : ℕ) (w : World n) (id : String) (man : Manifest) (e : Option String)
      → IsHistory w.table
          (manifest_checked n ns c decodes_peer parses_addr turn now w id man e).0.table
  unfolding manifest_checked store_manifest
  manifest_checked-IsHistory turn now w id man (some e) = IsHistory-same w.table
  manifest_checked-IsHistory turn now w id man none =
      let (nd', put) = put_json n ns c.manifest w.node (key_manifest id) (stamp now man) in
      manifest_stored-IsHistory turn now id (stamp now man) w nd' put

  manifest_body-IsHistory :
      (turn : Turn) (now : ℕ) (w : World n) (body : Option Manifest) (id : Option String)
      → IsHistory w.table (manifest_body n ns c decodes_peer parses_addr turn now w body id).0.table
  unfolding manifest_body
  manifest_body-IsHistory turn now w none none = IsHistory-same w.table
  manifest_body-IsHistory turn now w (some man) none = IsHistory-same w.table
  manifest_body-IsHistory turn now w none (some id) = IsHistory-same w.table
  manifest_body-IsHistory turn now w (some man) (some id) =
      manifest_checked-IsHistory turn now w id man (validate_manifest decodes_peer parses_addr man)

  pub manifest_handler-IsHistory :
      (env : Env) (turn : Turn) (now : ℕ) (r : Request Manifest) (w : World n)
      → IsHistory w.table
          (manifest_handler n ns c decodes_peer parses_addr env turn now r w).0.table
  unfolding manifest_handler
  manifest_handler-IsHistory env turn now r w = elim (Bool-cases (require_auth env r)) [
    | inr e ↦ rw e (IsHistory-same w.table)
    | inl e ↦
        rw e
          (manifest_body-IsHistory turn now w r.body (three_parts "jobs" "manifest" (path_parts r)))
  ]
