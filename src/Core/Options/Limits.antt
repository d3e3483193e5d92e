-- ===== src/Core/Options/Limits.antt =====
-- The limits that `Options.native` of cubesql/options.go puts on what reaches C.
use cubesql_go_driver.Prelude.{
  ℕ, ◌+◌, ◌*◌, ◌≤◌, ◌<◌, pos, Option, none, some, ◌≡◌, arith, c_string, c_string-of_no_nul, ◌≤ℤ◌,
}
use cubesql_go_driver.Prelude.Action.{ok}
use cubesql_go_driver.Csdk.Types
use cubesql_go_driver.Csdk.Convert.{c_int}
use cubesql_go_driver.Core.Options.{
  Options, native, malformed, timeout_seconds, second, max_seconds, native_timeout, with_timeout,
}

-- `t` nanoseconds as seconds, or as too many of them.
abbrev pub InSeconds : ℕ → Option ℕ → Type 0
InSeconds t (some s) = (t ≤ s * second) × (s * second < t + second) × (s ≤ max_seconds)
InSeconds t none = max_seconds * second < t

-- A timeout that fits is rounded up to whole seconds: never shorter than asked for, less than one
-- second longer, and at most 2^31 - 1. One that is refused is longer than that.
pub timeout-Ceiling : (t : ℕ) → InSeconds t (timeout_seconds t)
unfolding timeout_seconds
timeout-Ceiling t = ground arith

-- What C reads of options that `native` accepted.
pub record Faithful (o : Options) (n : Types.Options) : Type 0 where
  pub host : c_string n.host ≡ o.host
  pub username : c_string n.username ≡ o.username
  pub password : c_string n.password ≡ o.password
  pub port : c_int n.port ≡ o.port
  pub port_range : (pos 0 ≤ℤ o.port) × (o.port ≤ℤ pos 65535)
  pub timeout : c_int n.timeout ≡ n.timeout

-- Options that are accepted reach C whole: no text is cut at a NUL, and the port (0 to 65535) and
-- the timeout fit in a C `int`.
pub native-Faithful : (o : Options) (n : Types.Options) → native o ≡ ok n → Faithful o n
unfolding native malformed native_timeout with_timeout timeout_seconds c_int
native-Faithful o n h = record {
  host = ground (arith, c_string-of_no_nul o.host);
  username = ground (arith, c_string-of_no_nul o.username);
  password = ground (arith, c_string-of_no_nul o.password);
  port = ground arith;
  port_range = ground arith;
  timeout = ground arith;
}
