-- ===== src/Control/Manifests.antt =====
-- manifestHandler of cmd/control/control_http.go. peer.Decode and multiaddr.NewMultiaddr are
-- parameters: whether they accept a text. The request's manifestInDTO has the members of Manifest, and
-- a body of the wrong shape is `none`.
pub mod Laws
pub mod Statements
use mc_prototype.Base.{
  ℕ, ◌+◌, ◌*◌, String, List, [], ◌∷◌, Option, none, some, Bool, not, ◌&&◌, ◌||◌, str_eq, true,
  false, if◌then◌else◌, map, ◌==◌,
}
use mc_prototype.Dht.Network.{Network}
use mc_prototype.Dht.Json.{Node, put_json}
use mc_prototype.Task.Types.{Manifest, Provider}
use mc_prototype.Task.Keys.{key_manifest, key_p2p_manifest_mirror}
use mc_prototype.Text.{has_prefix, lower_is}
use mc_prototype.Lease.Types
use mc_prototype.Lease.Types.{second, Result, ok, err}
use mc_prototype.Lease.Store.{Turn, attach_manifest}
use mc_prototype.Control.World.{ManifestMirror, Codecs, World, empty, text, Response, reply}
use mc_prototype.Control.Requests.{Env, Request, require_auth, path_parts, three_parts}
use mc_prototype.Control.Announce.{enqueue}

-- The first transport that allowedTransports does not have.
unfoldable pub validate_transports : List String → Bool
validate_transports [] = true
validate_transports (t ∷ ts) =
    (lower_is t "quic-v1" || lower_is t "webrtc") && validate_transports ts

unfoldable pub provider_ids : List Provider → List String
provider_ids ps = map (λ p. p.peer_id) ps

abbrev pub no_providers : List Provider → Bool
no_providers [] = true
no_providers (p ∷ ps) = false

unfoldable pub is_noop : Manifest → Bool
is_noop man = str_eq man.root_cid "noop" && no_providers man.providers

module _ (decodes_peer parses_addr : String → Bool) where
  validate_addrs : List String → Option String
  validate_addrs [] = none
  validate_addrs (a ∷ others) =
      let rest = validate_addrs others in
      if not (parses_addr a)
      then some "invalid multiaddr"
      else if has_prefix a "http://" || has_prefix a "https://"
      then some "http(s) not allowed in addrs"
      else rest

  -- The error, if there is one.
  unfoldable pub validate_provider : Provider → Option String
  unfolding validate_addrs
  validate_provider p =
      if str_eq p.peer_id ""
      then some "missing peer_id"
      else if not (decodes_peer p.peer_id)
      then some "invalid peer_id"
      else elim p.addrs [ [] ↦ some "addrs empty" | a ∷ others ↦ validate_addrs (a ∷ others) ]

  unfoldable pub validate_providers : List Provider → Option String
  unfolding validate_provider
  validate_providers [] = none
  validate_providers (p ∷ ps) =
      let rest = validate_providers ps in
      elim (validate_provider p) [ none ↦ rest | some e ↦ some e ]

  -- Why a manifest is refused, if it is.
  unfoldable pub validate_manifest : Manifest → Option String
  unfolding is_noop
  validate_manifest man =
      if str_eq man.root_cid ""
      then some "root_cid required"
      else if not (validate_transports man.transports)
      then some "transport not allowed"
      else if is_noop man
      then none
      else validate_providers man.providers

abbrev pub manifest_ttl : ℕ
manifest_ttl = 120 * second

unfoldable pub stamp : ℕ → Manifest → Manifest
stamp now man = if man.updated_at == 0 then record man { updated_at = now } else man

unfoldable pub db_manifest : Manifest → Types.Manifest
unfolding provider_ids
db_manifest man = record {
  root_cid = man.root_cid;
  providers = provider_ids man.providers;
  enc_meta = man.enc_meta;
}

module _ (n : Network) (ns : String) (c : Codecs n.Bytes)
    (decodes_peer parses_addr : String → Bool) where
  manifest_attached : String → World n → Result (Unit {0}) → World n × Response
  manifest_attached id w (err e) = (w, reply 500 (text "db attach manifest failed"))
  manifest_attached id w (ok _) = (record w { manager = enqueue id w.manager }, reply 204 empty)

  manifest_mirrored : Turn → String → Manifest → World n → Node n × Bool → World n × Response
  unfolding manifest_attached db_manifest
  manifest_mirrored turn id man w (nd, false) =
      (record w { node = nd }, reply 500 (text "mirror store error"))
  manifest_mirrored turn id man w (nd, true) =
      let (t, r) = attach_manifest turn id (db_manifest man) w.table in
      manifest_attached id (record w { node = nd; table = t }) r

  manifest_stored : Turn → ℕ → String → Manifest → World n → Node n × Bool → World n × Response
  unfolding manifest_mirrored
  manifest_stored turn now id man w (nd, false) =
      (record w { node = nd }, reply 500 (text "store error"))
  manifest_stored turn now id man w (nd, true) =
      let m : ManifestMirror = record { providers = man.providers; exp = now + manifest_ttl } in
      manifest_mirrored turn id man w (put_json n ns c.mirror nd (key_p2p_manifest_mirror id) m)

  -- The handler behind its checks.
  unfoldable pub store_manifest : Turn → ℕ → String → Manifest → World n → World n × Response
  unfolding manifest_stored
  store_manifest turn now id man w =
      manifest_stored turn now id man w (put_json n ns c.manifest w.node (key_manifest id) man)

  manifest_checked : Turn → ℕ → World n → String → Manifest → Option String → World n × Response
  unfolding store_manifest stamp
  manifest_checked turn now w id man (some e) = (w, reply 400 (text e))
  manifest_checked turn now w id man none = store_manifest turn now id (stamp now man) w

  manifest_body : Turn → ℕ → World n → Option Manifest → Option String → World n × Response
  unfolding manifest_checked
  manifest_body turn now w body none = (w, reply 400 (text "bad path"))
  manifest_body turn now w none (some id) = (w, reply 400 (text "bad json"))
  manifest_body turn now w (some man) (some id) =
      manifest_checked turn now w id man (validate_manifest decodes_peer parses_addr man)

  unfoldable pub manifest_handler : Env → Turn → ℕ → Request Manifest → World n → World n × Response
  unfolding manifest_body
  manifest_handler env turn now r w =
      if not (require_auth env r)
      then (w, reply 401 (text "unauthorized"))
      else manifest_body turn now w r.body (three_parts "jobs" "manifest" (path_parts r))
