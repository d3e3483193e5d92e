-- ===== src/Csdk/Types.antt =====
-- The data of internal/csdk: its errors, options and objects, the calls that cross into C, and
-- what comes back. C itself (internal/csdk/bridge.c over third_party/cubesql-sdk) is a parameter.
use cubesql_go_driver.Prelude.{
  ℕ, ◌-◌, ℤ, pos, negsuc, Bool, Bytes, Option, none, List, [], ◌∷◌, length, get_or,
}
use cubesql_go_driver.Prelude.Action.{Action, ok}

-- A field or receiver of type `*Conn`: nil, or the connection that this model is about.
pub data Ref : Type 0 where
  nil : Ref
  self : Ref

abbrev pub is_nil : Ref → Bool
is_nil nil = Bool.true
is_nil self = Bool.false

-- An address of C memory, or of a Go object; `none` is the null pointer.
abbrev pub Pointer : Type 0
Pointer = Option ℕ

pub data Error : Type 0 where
  closed busy invalid_argument unsupported : Error
  native : (code : ℤ) → (message : Bytes) → Error

pub record Options : Type 0 where
  pub host : Bytes
  pub port : ℤ
  pub username : Bytes
  pub password : Bytes
  pub timeout : ℤ
  pub encryption : ℤ

-- The functions of bridge.h, with the arguments that Go passes. A C handle is a number.
pub data Call : Type 0 where
  conn_open : (host : Bytes) (port : ℤ) (username password : Bytes) (timeout encryption : ℤ) → Call
  conn_close conn_ping conn_begin conn_commit conn_rollback : ℕ → Call
  conn_changes conn_affected_rows conn_last_insert_id : ℕ → Call
  conn_error_code conn_error_message_copy : ℕ → Call
  conn_execute conn_query conn_prepare : ℕ → Bytes → Call
  conn_set_database : ℕ → Option Bytes → Call
  conn_execute_bind : (conn : ℕ) (sql : Bytes) (bind : ℕ) → Call
  cursor_close cursor_num_rows cursor_num_columns : ℕ → Call
  cursor_column_type cursor_seek cursor_copy_column_name : ℕ → ℤ → Call
  cursor_copy_field : (cursor : ℕ) (row column : ℤ) → Call
  stmt_close stmt_execute stmt_query : ℕ → Call
  stmt_bind_null : (stmt : ℕ) (index : ℤ) → Call
  stmt_bind_int64 stmt_bind_zeroblob : (stmt : ℕ) (index value : ℤ) → Call
  stmt_bind_double : (stmt : ℕ) (index : ℤ) (bits : ℕ) → Call
  stmt_bind_text stmt_bind_blob : (stmt : ℕ) (index : ℤ) (value : Bytes) (size : ℤ) → Call
  bind_new : (count : ℤ) → Call
  bind_close : ℕ → Call
  bind_set_null : (bind : ℕ) (index : ℤ) → Call
  bind_set_int64 : (bind : ℕ) (index value : ℤ) → Call
  bind_set_double : (bind : ℕ) (index : ℤ) (bits : ℕ) → Call
  bind_set_text bind_set_blob : (bind : ℕ) (index : ℤ) (value : Bytes) (size : ℤ) → Call

-- What C answers: the returned number (a C `int`, or an `int64_t` of a metric), whether an output
-- pointer or a returned pointer is set, and the bytes behind it.
pub record Reply : Type 0 where
  pub code : ℤ
  pub is_set : Bool
  pub bytes : Bytes

abbrev pub History : Type 0
History = List (Call × Reply)

-- The C side: its answer to a call, as any function of the calls made before and their answers.
abbrev pub Sdk : Type 0
Sdk = History → Call → Reply

pub record ConnState : Type 0 where
  pub ptr : Pointer
  pub children : ℤ

-- `Rows` and `Stmt`
pub record Child : Type 0 where
  pub conn : Ref
  pub ptr : Pointer

-- The Go objects of the package around one connection, and the calls made so far, newest first.
pub record Native : Type 0 where
  pub history : History
  pub conn : ConnState
  pub stmts : List Child
  pub rows : List Child
  pub binds : List Pointer

-- The zero `Rows{}` and `Stmt{}`; an address that was never handed out reads as this.
abbrev pub zero_child : Child
zero_child = record { conn = nil; ptr = none }

abbrev pub fresh : Native
fresh = record {
  history = [];
  conn = record { ptr = none; children = pos 0 };
  stmts = [];
  rows = [];
  binds = [];
}

abbrev pub Do : Type 0 → Type 0
Do = Action Native Error

-- CSQLGO_OK, CSQLGO_FIELD_NULL, CSQLGO_ERR_INVALID, CSQLGO_ERR_MEMORY
abbrev pub csqlgo_ok : ℤ
csqlgo_ok = pos 0

abbrev pub csqlgo_field_null : ℤ
csqlgo_field_null = pos 1

abbrev pub csqlgo_err_invalid : ℤ
csqlgo_err_invalid = negsuc 9999

abbrev pub csqlgo_err_memory : ℤ
csqlgo_err_memory = negsuc 10000

-- One call into C. A handle that it returns is the number of the calls before it, so it is new.
unfoldable pub cross : Sdk → Call → Do Reply
cross sdk call s =
    let reply = sdk s.history call in (ok reply, record s { history = (call, reply) ∷ s.history })

-- The handle that the last call returned.
abbrev pub new_handle : Native → ℕ
new_handle s = length s.history - 1

abbrev pub row_at : Native → ℕ → Child
row_at s i = get_or s.rows i zero_child

abbrev pub stmt_at : Native → ℕ → Child
stmt_at s i = get_or s.stmts i zero_child
