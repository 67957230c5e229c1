-- ===== src/Control/Server/Tokens.antt =====
-- The tokens that tryClaimHandler hands out while the server runs.
use mathlib.Core.List.{List}
use mc_prototype.Base.{ℕ, ◌<◌, ◌≡◌, ap, ◌∙◌, String, Bool, All, int64}
use mc_prototype.Dht.Network.{Network}
use mc_prototype.Task.Types.{Lease}
use mc_prototype.Lease.Store.{ClaimTurns}
use mc_prototype.Lease.Fencing.{fencing_token_lt}
use mc_prototype.Control.World.{Codecs, World, reply, claimed}
use mc_prototype.Control.Requests.{Env, Request, ttl_or_default}
use mc_prototype.Control.Claims.{TryClaimIn, lease_doc, try_claim_handler}
use mc_prototype.Control.Claims.Laws.{Accepted}
use mc_prototype.Control.Claims.Statements.{try_claim_handler_claimed}
use mc_prototype.Control.Server.{Event, serve}
use mc_prototype.Control.Server.Laws.{Admissible, serve-IsHistory}

module _ (n : Network) (ns : String) (c : Codecs n.Bytes) (env : Env)
    (decodes_peer parses_addr : String → Bool) where
  -- Of two accepted requests to claim the same job that are answered with a lease, whatever the server,
  -- its loops and other servers do between them, if other sessions create jobs as queued only, the later
  -- one is given the greater token, each token being converted to an int64 in the reply.
  pub served_token_lt :
      (turns later : ClaimTurns) (now now' : ℕ) (r r' : Request TryClaimIn) (id : String)
      (i i' : TryClaimIn) (w u : World n) (es : List (Event n)) (d d' : Lease)
      → Accepted env r id i
      → Accepted env r' id i'
      → All Admissible es
      → (try_claim_handler n ns c env turns now r w).1 ≡ reply 200 (claimed d)
      → u
        ≡ serve n ns c env decodes_peer parses_addr es
            (try_claim_handler n ns c env turns now r w).0
      → (try_claim_handler n ns c env later now' r' u).1 ≡ reply 200 (claimed d')
      → (k : ℕ) × (k' : ℕ) × (d.version ≡ int64 k) × (d'.version ≡ int64 k') × (k < k')
  unfolding lease_doc
  served_token_lt turns later now now' r r' id i i' w u es d d' a a' q h e h' =
      let (l, claims, doc) = try_claim_handler_claimed n ns c env turns now r id i w d a h in
      let (l', claims', doc') =
        try_claim_handler_claimed n ns c env later now' r' id i' u d' a' h' in
      let w' = (try_claim_handler n ns c env turns now r w).0 in
      let u' = (try_claim_handler n ns c env later now' r' u).0 in
      let history = serve-IsHistory n ns c env decodes_peer parses_addr es w' q in
      (
        l.fencing_token,
        l'.fencing_token,
        ap (λ (x : Lease). x.version) doc,
        ap (λ (x : Lease). x.version) doc',
        fencing_token_lt turns later id i.agent_id i'.agent_id (ttl_or_default i.ttl_sec)
            (ttl_or_default i'.ttl_sec) w.table w'.table u.table u'.table l l' history.calls claims
            (ap (λ (x : World n). x.table) e ∙ history.runs) claims',
      )
