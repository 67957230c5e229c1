-- ===== src/Control/Finishes/Statements.antt =====
-- The statements that finishHandler runs on the table.
use mc_prototype.Base.{ℕ, String, Option, none, some, Bool, Bool-cases, inl, inr, str_eq}
use mc_prototype.Dht.Network.{Network}
use mc_prototype.Lease.Types.{Result, ok, err}
use mc_prototype.Lease.Store.{Turn, finish}
use mc_prototype.Lease.Table.{Table}
use mc_prototype.Lease.Statements.{IsHistory, IsHistory-same, finish-IsHistory}
use mc_prototype.Control.World.{Codecs, World}
use mc_prototype.Control.Requests.{
  Env, Request, require_auth, path_parts, three_parts, header_token,
}
use mc_prototype.Control.Finishes.{FinishIn, outcome_of, on_finish, finish_body, finish_handler}

module _ (n : Network) (ns : String) (c : Codecs n.Bytes) where
  on_finish-IsHistory :
      (id : String) (done : Bool) (now : ℕ) (t : Table) (w : World n) (r : Result (Unit {0}))
      → IsHistory t w.table
      → IsHistory t (on_finish n ns c id done now w r).0.table
  unfolding on_finish
  on_finish-IsHistory id done now t w (ok _) h = h
  on_finish-IsHistory id done now t w (err e) h = h

  finish_body-IsHistory :
      (turn : Turn) (now : ℕ) (w : World n) (agent header : String) (body : Option FinishIn)
      (id : Option String)
      → IsHistory w.table (finish_body n ns c turn now w agent header body id).0.table
  unfolding finish_body
  finish_body-IsHistory turn now w agent header none none = IsHistory-same w.table
  finish_body-IsHistory turn now w agent header (some i) none = IsHistory-same w.table
  finish_body-IsHistory turn now w agent header none (some id) = IsHistory-same w.table
  finish_body-IsHistory turn now w agent header (some i) (some id) =
      let (t, r) = finish turn id agent (header_token header) (outcome_of i) w.table in
      on_finish-IsHistory id (outcome_of i).succeeded now w.table (record w { table = t }) r
        (finish-IsHistory turn id agent (header_token header) (outcome_of i) w.table)

  pub finish_handler-IsHistory :
      (env : Env) (turn : Turn) (now : ℕ) (r : Request FinishIn) (w : World n)
      → IsHistory w.table (finish_handler n ns c env turn now r w).0.table
  unfolding finish_handler
  finish_handler-IsHistory env turn now r w = elim (Bool-cases (require_auth env r)) [
    | inr e ↦ rw e (IsHistory-same w.table)
    | inl e ↦ elim (Bool-cases (str_eq r.method "POST")) [
      | inr f ↦ rw (e, f) (IsHistory-same w.table)
      | inl f ↦
          rw (e, f)
            (finish_body-IsHistory turn now w r.agent_header r.token_header r.body
              (three_parts "jobs" "finish" (path_parts r)))
    ]
  ]
