-- ===== src/Adapter/Config.antt =====
-- database/cubesql/config.go. `url.Parse`, `net.ParseIP` and `time.ParseDuration`, of the standard
-- library, are parameters; `strconv.Atoi`, of a 64-bit `int`, is `parse_int`.
pub mod Accepted
pub mod Roundtrip
use cubesql_go_driver.Prelude.{
  ℕ, ℤ, pos, Bool, true, false, not, ◌||◌, ◌&&◌, Option, none, some, Bytes, ascii, List, [], ◌∷◌,
  is_empty, is_none, has_nul, bytes_eq, contains, length, negative, positive, ltb_ℤ, ◌==◌,
  if◌then◌else◌,
}
use cubesql_go_driver.Prelude.Action.{Outcome, ok, err}
use cubesql_go_driver.Prelude.Result.{◌>>=◌, ◌>>◌, refuse_if, require}
use cubesql_go_driver.Core.Decimal.{parse_int}
use cubesql_go_driver.Core.Options.{Options, validate, clear, aes256}
use cubesql_go_driver.Adapter.Types.{
  Reason, malformed_url, username_required, implicit_password, host_required, invalid_port,
  invalid_host_or_port, several_segments, unsupported_key, duplicate_key, invalid_timeout,
  invalid_encryption, invalid_options, nul_in_database,
}

pub record Config : Type 0 where
  pub options : Options
  pub database : Bytes

-- `Validate`; `some` is an error that wraps ErrInvalidDSN.
unfoldable pub validate_config : Config → Option Reason
unfolding validate
validate_config c = elim (validate c.options) [
  | some e ↦ some invalid_options
  | none ↦ if has_nul c.database then some nul_in_database else none
]

-- `url.Userinfo`
pub record UserInfo : Type 0 where
  pub username : Bytes
  pub password : Option Bytes

-- What `url.Parse` returns, and its methods Hostname, Port and Query. The entries of the query stand
-- in the order in which `range` visits them.
pub record Url : Type 0 where
  pub scheme : Bytes
  pub opaque : Bytes
  pub fragment : Bytes
  pub user : Option UserInfo
  pub host : Bytes
  pub hostname : Bytes
  pub port : Bytes
  pub path : Bytes
  pub query : List (Bytes × List Bytes)

-- `strings.TrimPrefix(path, "/")`
abbrev pub trim_slash : Bytes → Bytes
trim_slash [] = []
trim_slash (c ∷ s) = if c == b'/' then s else c ∷ s

-- `Values.Get`: the first value of the key, or "".
abbrev first_of : List Bytes → Bytes
first_of [] = []
first_of (v ∷ vs) = v

unfoldable pub get : List (Bytes × List Bytes) → Bytes → Bytes
get [] key = []
get ((k, vs) ∷ query) key = if bytes_eq k key then first_of vs else get query key

unfoldable pub usual_url : Url → Bool
usual_url url =
    bytes_eq url.scheme (ascii "cubesql") && is_empty url.opaque && is_empty url.fragment

-- The loop over the keys of the query.
unfoldable pub check_keys : List (Bytes × List Bytes) → Outcome Reason (Unit {0})
check_keys [] = ok tt
check_keys ((key, values) ∷ query) =
    let rest = check_keys query in
    do
      refuse_if (not (bytes_eq key (ascii "timeout")) && not (bytes_eq key (ascii "encryption")))
          unsupported_key
      refuse_if (not (length values == 1)) duplicate_key
      rest

unfoldable pub parse_port : (is_ip : Bytes → Bool) → Url → Outcome Reason ℤ
unfolding parse_int
parse_port is_ip url =
    if not (is_empty url.port)
    then (do
      port ← require (parse_int url.port) invalid_port
      refuse_if (not (positive port) || ltb_ℤ (pos 65535) port) invalid_port
      ok port)
    else do
      refuse_if (contains url.host (ascii ":") && not (is_ip url.hostname)) invalid_host_or_port
      ok (pos 4430)

unfoldable pub parse_timeout : (parse_duration : Bytes → Option ℤ) → Bytes → Outcome Reason ℤ
parse_timeout parse_duration text = if is_empty text then ok (pos 0) else do
  timeout ← require (parse_duration text) invalid_timeout
  refuse_if (negative timeout) invalid_timeout
  ok timeout

unfoldable pub parse_encryption : Bytes → Outcome Reason ℕ
parse_encryption text =
    if is_empty text || bytes_eq text (ascii "clear")
    then ok clear
    else if bytes_eq text (ascii "aes256")
    then ok aes256
    else err invalid_encryption

abbrev validated : Config → Option Reason → Outcome Reason Config
validated c none = ok c
validated c (some e) = err e

abbrev pub built : Url → UserInfo → Bytes → ℤ → ℤ → ℕ → Config
built url user password port timeout encryption = record {
  options = record {
    host = url.hostname;
    port = port;
    username = user.username;
    password = password;
    timeout = timeout;
    encryption = encryption;
  };
  database = trim_slash url.path;
}

module _ (is_ip : Bytes → Bool) (parse_duration : Bytes → Option ℤ) where
  -- ParseDSN past `url.Parse`.
  unfoldable pub parse_url : Url → Outcome Reason Config
  unfolding usual_url get check_keys parse_port parse_timeout parse_encryption validate_config
  parse_url url = do
    refuse_if (not (usual_url url)) malformed_url
    user ← require url.user username_required
    refuse_if (is_empty user.username) username_required
    password ← require user.password implicit_password
    refuse_if (is_empty url.hostname) host_required
    port ← parse_port is_ip url
    refuse_if (contains (trim_slash url.path) (ascii "/")) several_segments
    check_keys url.query
    timeout ← parse_timeout parse_duration (get url.query (ascii "timeout"))
    encryption ← parse_encryption (get url.query (ascii "encryption"))
    let config = built url user password port timeout encryption
    validated config (validate_config config)

  unfoldable pub parse_dsn : (url_parse : Bytes → Option Url) → Bytes → Outcome Reason Config
  unfolding parse_url
  parse_dsn url_parse dsn = do url ← require (url_parse dsn) malformed_url; parse_url url
