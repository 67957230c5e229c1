-- ===== src/Control/Requests.antt =====
-- Requests and the checks that the handlers of cmd/control/control_http.go begin with.
use Prim.Native.String.{◌++◌}
use mc_prototype.Base.{
  ℕ, ◌*◌, ◌≤◌, String, List, [], ◌∷◌, Option, none, some, Bool, not, ◌&&◌, ◌||◌, str_eq, leb, ltb,
  ℤ, pos, negsuc, if◌then◌else◌, arith, is_positive, uint64,
}
use mc_prototype.Text.{trim_slashes, split, slash, trim_space, parse_uint}
use mc_prototype.Lease.Types.{second}

-- The environment variables that the handlers read.
pub record Env : Type 0 where
  pub disable_auth : String
  pub control_token : String
  pub public_url : String
  pub http_port : String

-- A request; an absent header is the empty text. The body is `none` where JSON decoding fails.
pub record Request (A : Type 0) : Type 0 where
  pub method : String
  pub path : String
  pub authorization : String
  pub agent_header : String
  pub token_header : String
  pub query_limit : String
  pub query_offset : String
  pub query_token : String
  pub body : Option A

unfoldable pub require_auth : {A : Type 0} → Env → Request A → Bool
require_auth env r =
    str_eq env.disable_auth "1"
    || (not (str_eq env.control_token "")
        && str_eq r.authorization ("Bearer " ++ env.control_token))

-- strings.Split(strings.Trim(r.URL.Path, "/"), "/")
unfoldable pub path_parts : {A : Type 0} → Request A → List String
path_parts r = split slash (trim_slashes r.path)

-- The job of a path `/a/{id}/b`.
abbrev pub three_parts : String → String → List String → Option String
three_parts a b (x ∷ id ∷ y ∷ []) = if str_eq x a && str_eq y b then some id else none
three_parts a b _ = none

-- The job of a path `/a/b/{id}/c`.
abbrev pub four_parts : String → String → String → List String → Option String
four_parts a b c (x ∷ y ∷ id ∷ z ∷ []) =
    if str_eq x a && (str_eq y b && str_eq z c) then some id else none
four_parts a b c _ = none

unfoldable pub ttl_or_default : ℤ → ℕ
ttl_or_default (pos n) = if leb n 0 || ltb 3600 n then 15 * second else n * second
ttl_or_default (negsuc n) = 15 * second

abbrev pub or_zero : Option ℕ → ℕ
or_zero none = 0
or_zero (some n) = n

-- The token of X-Lease-Token in finishHandler: 0 where the header is absent or no number.
unfoldable pub header_token : String → ℕ
header_token s = if str_eq s "" then 0 else or_zero (parse_uint s)

-- The token of a heartbeat: lease_version, else the nonce, else the header.
unfoldable pub heartbeat_token : ℤ → String → String → ℕ
unfolding header_token
heartbeat_token version nonce header =
    let trimmed = trim_space nonce in
    if is_positive version
    then uint64 version
    else header_token (if str_eq trimmed "" then header else trimmed)

-- Every lease time that a handler asks for lies between one second and one hour.
pub ttl_or_default_bounds :
    (sec : ℤ) → (second ≤ ttl_or_default sec) × (ttl_or_default sec ≤ 3600 * second)
unfolding ttl_or_default
ttl_or_default_bounds (pos n) = ground arith
ttl_or_default_bounds (negsuc n) = omega arith
