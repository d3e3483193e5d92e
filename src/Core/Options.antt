-- ===== src/Core/Options.antt =====
-- cubesql/options.go
pub mod Limits
use cubesql_go_driver.Prelude.{
  ℕ, ◌+◌, ◌-◌, ◌/◌, ◌%◌, ◌^◌, ℤ, pos, negsuc, Bool, ◌||◌, ◌&&◌, not, Option, none, some, Bytes,
  is_empty, has_nul, negative, ltb, ltb_ℤ, ◌==◌, if◌then◌else◌,
}
use cubesql_go_driver.Prelude.Action.{Outcome, ok, err}
use cubesql_go_driver.Csdk.Types
use cubesql_go_driver.Csdk.Conn.{encryption_clear, encryption_aes256}
use cubesql_go_driver.Core.Errors.{Sentinel, Error, plain}
use cubesql_go_driver.Core.Act.{error_of}

-- EncryptionClear and EncryptionAES256 of the public type, a byte.
abbrev pub clear : ℕ
clear = 0

abbrev pub aes256 : ℕ
aes256 = 1

-- `timeout` is a `time.Duration`, in nanoseconds.
pub record Options : Type 0 where
  pub host : Bytes
  pub port : ℤ
  pub username : Bytes
  pub password : Bytes
  pub timeout : ℤ
  pub encryption : ℕ

-- time.Second
abbrev pub second : ℕ
second = 1000000000

-- `int64(^uint32(0) >> 1)`
abbrev pub max_seconds : ℕ
max_seconds = 2 ^ 31 - 1

-- The timeout in seconds, rounded up; `none` if it does not fit.
unfoldable pub timeout_seconds : ℕ → Option ℕ
timeout_seconds nanoseconds =
    let seconds =
      if nanoseconds % second == 0 then nanoseconds / second else nanoseconds / second + 1 in
    if ltb max_seconds seconds then none else some seconds

-- The guards of `native` before the timeout is converted.
unfoldable pub malformed : Options → Bool
malformed o =
    (is_empty o.username || has_nul o.host || has_nul o.username || has_nul o.password)
    || (negative o.timeout || negative o.port || ltb_ℤ (pos 65535) o.port)
    || not (o.encryption == clear) && not (o.encryption == aes256)

native_timeout : ℤ → Option ℕ
unfolding timeout_seconds
native_timeout (pos n) = if ltb 0 n then timeout_seconds n else some 0
native_timeout (negsuc n) = some 0

with_timeout : Options → Option ℕ → Outcome Error Types.Options
with_timeout o none = err (plain Sentinel.invalid_argument)
with_timeout o (some seconds) = ok (record {
  host = o.host;
  port = o.port;
  username = o.username;
  password = o.password;
  timeout = pos seconds;
  encryption = if o.encryption == aes256 then encryption_aes256 else encryption_clear;
})

unfoldable pub native : Options → Outcome Error Types.Options
unfolding malformed native_timeout with_timeout
native o =
    if malformed o
    then err (plain Sentinel.invalid_argument)
    else with_timeout o (native_timeout o.timeout)

-- `Validate`
unfoldable pub validate : Options → Option Error
unfolding native
validate o = error_of (native o)
