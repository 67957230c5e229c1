-- ===== src/Control/Logs.antt =====
-- logsHandler of cmd/control/control_http.go. Endpoints are any JSON objects, whose type is a parameter.
use Prim.Native.String.{◌++◌}
use mc_prototype.Base.{ℕ, String, Bool, true, false, not, if◌then◌else◌}
use mc_prototype.Text.{trim_prefix, trim_suffix}
use mc_prototype.Text.Decimal.{format_uint}
use mc_prototype.Dht.Network.{Network, Codec}
use mc_prototype.Dht.Json.{Node, put_json, get_json}
use mc_prototype.Task.Keys.{key_ws}
use mc_prototype.Control.Requests.{Env, Request, require_auth}

pub record LogToken : Type 0 where
  pub token : String
  pub issued : ℕ

pub data LogsReply (E : Type 0) : Type 0 where
  refused : ℕ → String → LogsReply E
  shows : E → String → LogsReply E

module _ (n : Network) (ns : String) {E : Type 0} (endpoints : Codec n.Bytes E)
    (tokens : Codec n.Bytes LogToken) where
  with_endpoint : ℕ → ℕ → String → Node n × E × Bool → Node n × LogsReply E
  with_endpoint unix now id (nd, endp, false) = (nd, refused 404 "no ws endpoint")
  with_endpoint unix now id (nd, endp, true) =
      let tkn = "demo-" ++ format_uint unix in
      (
        (put_json n ns tokens nd (key_ws id ++ "_token") (record { token = tkn; issued = now })).0,
        shows endp tkn,
      )

  -- `unix` is time.Now().Unix(), and `none_yet` the nil map that is decoded into.
  unfoldable pub logs_handler : Env → ℕ → ℕ → E → Request (Unit {0}) → Node n → Node n × LogsReply E
  unfolding with_endpoint
  logs_handler env unix now none_yet r nd =
      let id = trim_suffix (trim_prefix r.path "/api/tasks/") "/logs" in
      if not (require_auth env r)
      then (nd, refused 401 "unauthorized")
      else with_endpoint unix now id (get_json n ns endpoints nd (key_ws id) none_yet)
