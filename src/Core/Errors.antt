-- ===== src/Core/Errors.antt =====
-- cubesql/errors.go: the public errors, and how SDK errors become them.
pub mod Classes
use Prim.Native.String.{String}
use cubesql_go_driver.Prelude.{
  ℕ, ℤ, pos, negsuc, Bool, true, false, ◌||◌, ◌&&◌, Option, none, some, Bytes, ascii, contains,
  to_lower, ◌==ℤ◌, leb_ℤ, positive, ◌==◌, if◌then◌else◌,
}
use cubesql_go_driver.Csdk.Types

-- The error variables of the package, and the two errors of a done `context.Context`.
pub data Sentinel : Type 0 where
  closed busy invalid_argument unsupported scan tx_done : Sentinel
  authentication authorization network protocol server timeout : Sentinel
  canceled deadline_exceeded : Sentinel

pub data ErrorKind : Type 0 where
  unknown authentication authorization network protocol server timeout : ErrorKind

-- A non-nil error of the package: a variable, an `*Error`, or what `errors.Join` makes of one or two.
pub data Error : Type 0 where
  plain : Sentinel → Error
  sdk : (code : ℤ) → (message : Bytes) → (kind : ErrorKind) → Error
  joined_one : Error → Error
  joined : Error → Error → Error

-- `ErrorKind.String`
unfoldable pub kind_name : ErrorKind → String
kind_name ErrorKind.authentication = "authentication"
kind_name ErrorKind.authorization = "authorization"
kind_name ErrorKind.network = "network"
kind_name ErrorKind.protocol = "protocol"
kind_name ErrorKind.server = "server"
kind_name ErrorKind.timeout = "timeout"
kind_name ErrorKind.unknown = "unknown"

-- `(*Error).Unwrap`, by the kind
unfoldable pub unwrap : ErrorKind → Option Sentinel
unwrap ErrorKind.authentication = some Sentinel.authentication
unwrap ErrorKind.authorization = some Sentinel.authorization
unwrap ErrorKind.network = some Sentinel.network
unwrap ErrorKind.protocol = some Sentinel.protocol
unwrap ErrorKind.server = some Sentinel.server
unwrap ErrorKind.timeout = some Sentinel.timeout
unwrap ErrorKind.unknown = none

abbrev pub rank : Sentinel → ℕ
rank Sentinel.closed = 0
rank Sentinel.busy = 1
rank Sentinel.invalid_argument = 2
rank Sentinel.unsupported = 3
rank Sentinel.scan = 4
rank Sentinel.tx_done = 5
rank Sentinel.authentication = 6
rank Sentinel.authorization = 7
rank Sentinel.network = 8
rank Sentinel.protocol = 9
rank Sentinel.server = 10
rank Sentinel.timeout = 11
rank Sentinel.canceled = 12
rank Sentinel.deadline_exceeded = 13

abbrev pub unwraps_to : Option Sentinel → Sentinel → Bool
unwraps_to none target = false
unwraps_to (some s) target = rank s == rank target

-- `errors.Is(err, target)`
unfoldable pub is_error : Error → Sentinel → Bool
unfolding unwrap
is_error (plain s) target = rank s == rank target
is_error (sdk code message kind) target = unwraps_to (unwrap kind) target
is_error (joined_one e) target = is_error e target
is_error (joined e f) target = is_error e target || is_error f target

-- `errors.Join(a, b)`
unfoldable pub join : Option Error → Option Error → Option Error
join none none = none
join (some e) none = some (joined_one e)
join none (some f) = some (joined_one f)
join (some e) (some f) = some (joined e f)

-- The tests of classifyError, on the code and the message in lower case.
authentication_failed : ℤ → Bytes → Bool
authentication_failed code lower =
    code ==ℤ pos 7056
    || contains lower (ascii "authentication failed")
    || contains lower (ascii "invalid password")
    || contains lower (ascii "invalid username")

timed_out : ℤ → Bytes → Bool
timed_out code lower =
    code ==ℤ pos 810 || contains lower (ascii "timeout") || contains lower (ascii "timed out")

network_failed : ℤ → Bytes → Bool
network_failed code lower =
    code ==ℤ pos 800
    || code ==ℤ pos 802
    || code ==ℤ pos 805
    || code ==ℤ pos 820
    || code ==ℤ pos 830
    || code ==ℤ pos 888
    || code ==ℤ negsuc 5
    || code ==ℤ negsuc 6
    || code ==ℤ negsuc 7
    || contains lower (ascii "csql_socket")
    || contains lower (ascii "sock_read")
    || contains lower (ascii "sock_write")
    || contains lower (ascii "getaddrinfo")
    || contains lower (ascii "connection reset")
    || contains lower (ascii "connection refused")
    || contains lower (ascii "broken pipe")

protocol_failed : ℤ → Bytes → Bool
protocol_failed code lower =
    leb_ℤ (pos 835) code && leb_ℤ code (pos 870)
    || code ==ℤ negsuc 3
    || code ==ℤ negsuc 4
    || contains lower (ascii "protocol")
    || contains lower (ascii "signature header")

not_authorized : Bytes → Bool
not_authorized lower =
    contains lower (ascii "not authorized")
    || contains lower (ascii "permission")
    || contains lower (ascii "privilege")
    || contains lower (ascii "access denied")

unfoldable pub classify_error : ℤ → Bytes → ErrorKind
unfolding authentication_failed timed_out network_failed protocol_failed not_authorized
classify_error code message =
    let lower = to_lower message in
    if authentication_failed code lower
    then ErrorKind.authentication
    else if timed_out code lower
    then ErrorKind.timeout
    else if network_failed code lower
    then ErrorKind.network
    else if protocol_failed code lower
    then ErrorKind.protocol
    else if positive code
    then (if not_authorized lower then ErrorKind.authorization else ErrorKind.server)
    else ErrorKind.unknown

-- An error as publicError meets it: of internal/csdk, or public already.
pub data Failure : Type 0 where
  native : Types.Error → Failure
  public : Error → Failure

unfoldable pub public_error : Failure → Error
public_error (native Types.Error.closed) = plain Sentinel.closed
public_error (native Types.Error.busy) = plain Sentinel.busy
public_error (native Types.Error.invalid_argument) = plain Sentinel.invalid_argument
public_error (native Types.Error.unsupported) = plain Sentinel.unsupported
public_error (native (Types.Error.native code message)) =
    sdk code message (classify_error code message)
public_error (public e) = e
