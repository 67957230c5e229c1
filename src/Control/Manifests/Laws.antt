-- ===== src/Control/Manifests/Laws.antt =====
-- What manifestHandler lets through.
use mc_prototype.Base.{
  ◌≡◌, ◌≢◌, ◌⊎◌, refl, String, List, [], ◌∷◌, none, Bool, true, false, arith, eq_iff, All, ◌||◌,
}
use mc_prototype.Task.Types.{Manifest, Provider}
use mc_prototype.Text.{has_prefix, lower_is}
use mc_prototype.Control.Manifests.{no_providers, validate_addrs, validate_provider, is_noop}
use mc_prototype.Base.{ℕ, ◌≤◌, some}
use mc_prototype.Dht.Network.{Network}
use mc_prototype.Lease.Store.{Turn}
use mc_prototype.Control.World.{Codecs, World, Response, reply, text}
use mc_prototype.Control.Requests.{Request}
use mc_prototype.Control.Manifests.{store_manifest, stamp}

no_providers_lem : (ps : List Provider) → no_providers ps ≡ true → ps ≡ []
no_providers_lem [] h = refl
no_providers_lem (p ∷ ps) h = absurd (ground arith)

pub is_noop_lem :
    (man : Manifest) → is_noop man ≡ true → (man.root_cid ≡ "noop") × (man.providers ≡ [])
unfolding is_noop
is_noop_lem man h =
    (ground (arith, eq_iff man.root_cid "noop"), no_providers_lem man.providers (ground arith))

module _ (decodes_peer parses_addr : String → Bool) where
  -- An address that an agent can dial: a multiaddr, and no URL.
  pub record IsDialable (a : String) : Type 0 where
    pub parses : parses_addr a ≡ true
    pub no_http : has_prefix a "http://" ≡ false
    pub no_https : has_prefix a "https://" ≡ false

  -- A provider with a peer id and at least one address.
  pub record IsServed (p : Provider) : Type 0 where
    pub present : p.peer_id ≢ ""
    pub named : decodes_peer p.peer_id ≡ true
    pub listed : p.addrs ≢ []
    pub dialable : All IsDialable p.addrs

  validate_addrs_lem :
      (l : List String) → validate_addrs decodes_peer parses_addr l ≡ none → All IsDialable l
  unfolding validate_addrs
  validate_addrs_lem [] h = tt
  validate_addrs_lem (a ∷ others) h = (
    record { parses = ground arith; no_http = ground arith; no_https = ground arith },
    validate_addrs_lem others (ground arith),
  )

  pub validate_provider_lem :
      (p : Provider) → validate_provider decodes_peer parses_addr p ≡ none → IsServed p
  unfolding validate_provider
  validate_provider_lem p h = record {
    present = λ e. ground (arith, eq_iff p.peer_id "");
    named = ground arith;
    listed = λ e. ground arith;
    dialable = validate_addrs_lem p.addrs (ground arith);
  }

  -- A root, only the transports quic-v1 and webrtc, and unless it is the placeholder, which has the root
  -- "noop" and no providers, only providers that can be dialled.
  abbrev pub IsValid : Manifest → Type 0
  IsValid man =
      (man.root_cid ≢ "")
      × All (λ t. (lower_is t "quic-v1" || lower_is t "webrtc") ≡ true) man.transports
      × (((man.root_cid ≡ "noop") × (man.providers ≡ [])) ⊎ All IsServed man.providers)

  module _ (n : Network) (ns : String) (c : Codecs n.Bytes) where
    -- The handler refused, and changed nothing.
    abbrev pub Refused : World n → World n × Response → Type 0
    Refused w x =
        (status : ℕ) × (reason : String) × (400 ≤ status) × (x ≡ (w, reply status (text reason)))

    -- The manifest of the request is valid, and is stored for a job.
    abbrev pub Stored : Turn → ℕ → Request Manifest → World n → World n × Response → Type 0
    Stored turn now r w x =
        (id : String) × (man : Manifest) × (r.body ≡ some man)
        × IsValid man
        × (x ≡ store_manifest n ns c decodes_peer parses_addr turn now id (stamp now man) w)
