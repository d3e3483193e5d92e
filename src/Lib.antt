-- ===== src/Lib.antt =====
-- The Go client and database/sql driver for CubeSQL, as a library of definitions and theorems.
--
-- The program has three layers, each a Go package over the one below:
--   internal/csdk/csdk.go     the cgo boundary: Go handles around C handles          Csdk
--   cubesql/*.go              the public core API: connections, statements, cursors,
--                             transactions, values, errors, contexts                 Core
--   database/cubesql/*.go     the adapter to the standard library's database/sql      Adapter
--
-- A Go method is an action (Prelude/Action.antt): a function of the objects it may change to a
-- result or an error, and the objects afterwards. An early return keeps what was written before it.
-- Csdk acts on `Native` (Csdk/Types.antt), Core on `World` (Core/Types.antt), which holds a
-- `Native`, and Adapter on `Session` (Adapter/Types.antt), which holds a `World`. The model is about
-- one connection: a Go object is an address in one of the lists of its state, `Ref` is a `*Conn`
-- that is nil or this connection, and `Pointer` any other pointer.
--
-- C is not modelled: internal/csdk/bridge.c and third_party/cubesql-sdk are the parameter `Sdk`,
-- the answer to a call of bridge.h as any function of the calls made before and their answers. A C
-- handle is the number of the call that returned it. `Native.history` keeps the calls, newest first.
-- A context is nil, `context.Background()` or the caller's, which is done from some check on
-- (`Cancel`), so a cancellation may come between any two checks. `strconv.ParseFloat` and the
-- default converter of database/sql/driver are parameters too; a `float64` is its IEEE 754 bits.
-- `url.Parse` is a parameter from the text to the parts that ParseDSN reads, as are `net.ParseIP`
-- and `time.ParseDuration`.
-- A byte slice is the list of its bytes. Where a value leaves the library, and a nil slice can be
-- told from an empty one, it is an `Option`: what a scan of Core/Scan writes, and what the adapter
-- hands to database/sql.
-- A C `int` is a Go `int` modulo 2^32 (Csdk/Convert.antt). The counts `children` and `rows` are
-- integers without a bound: they would have to count 2^63 open handles to overflow.
--
-- Files of the source and the modules that model them:
--   internal/csdk/csdk.go         Csdk/Types, Csdk/Convert, Csdk/Conn, Csdk/Rows, Csdk/Stmt, Csdk/Bind;
--                                 Csdk/Session has every method as one type, and sequences of them
--   cubesql/errors.go             Core/Errors
--   cubesql/options.go            Core/Options
--   cubesql/context.go, bind.go   Core/Act, Core/Bind
--   cubesql/conn.go               Core/Conn, Core/Query (queries)
--   cubesql/stmt.go               Core/Stmt, Core/Query (query)
--   cubesql/rows.go               Core/Rows, Core/Scan (values), Core/Decimal (strconv.ParseInt)
--   cubesql/tx.go                 Core/Tx
--   the public methods together   Core/Session; those that only call another one, Core/Forms
--   database/cubesql/conn.go      Adapter/Conn, Adapter/Values (arguments)
--   database/cubesql/tx.go        Adapter/Tx
--   database/cubesql/config.go    Adapter/Config
--   database/cubesql/driver.go    Adapter/Driver
--   database/cubesql/stmt.go      Adapter/Stmt
--   database/cubesql/rows.go      Adapter/Rows, Adapter/Rows/Metadata, Adapter/Values (driverValue)
--   database/cubesql/result.go    Adapter/Result
-- Modules below one of these hold proofs about it. Core/Frame says which calls change no Go
-- object, Core/Draft what happens to a cursor before it is handed out, and Core/Counts what an
-- operation does to the counts. Csdk/Handles counts, in the history, how often C returned a handle
-- and how often it was freed. Core/Carried carries what the methods of csdk.go keep over to the
-- operations of cubesql. Core/Rows/Lifecycle is the abstract cursor, as a relation of steps, and
-- its children prove that the methods of cubesql/rows.go refine it. Examples has every theorem at
-- a concrete input.
--
-- Loops run over lists or over the number of columns left, so nothing of the source needs fuel. The
-- reading of rows to their end (Adapter/Rows/Ending) is a loop of database/sql: there the number of
-- calls is bounded, and one more than the rows that are left is enough. The printing of numbers
-- (Core/Decimal/Print) takes the number itself as a bound of its digits.
--
-- Not modelled: the mutexes, so methods run one at a time; `OpenDB` and the registration of the
-- driver, which are calls of database/sql; the C code; the topology spikes, scripts and tests.
pub mod Prelude
pub mod Csdk
pub mod Core
pub mod Adapter
pub mod Examples
