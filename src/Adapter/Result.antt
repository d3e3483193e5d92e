-- ===== src/Adapter/Result.antt =====
-- database/cubesql/result.go, over cubesql/result.go: the metrics of an execution, each with the
-- error of its own reading.
use cubesql_go_driver.Prelude.{ℤ, Option}
use cubesql_go_driver.Core.Errors.{Error}
use cubesql_go_driver.Core.Types.{Result}

abbrev pub native_rows_affected : Result → ℤ × Option Error
native_rows_affected r = (r.rows_affected, r.rows_error)

abbrev pub native_last_insert_id : Result → ℤ × Option Error
native_last_insert_id r = (r.last_insert_id, r.last_error)

-- `execResult`
pub record ExecResult : Type 0 where
  pub native : Result

abbrev pub last_insert_id : ExecResult → ℤ × Option Error
last_insert_id r = native_last_insert_id r.native

abbrev pub rows_affected : ExecResult → ℤ × Option Error
rows_affected r = native_rows_affected r.native
