-- ===== src/Core/Forms/Rows.antt =====
-- The forms of the methods of `Rows`.
use cubesql_go_driver.Prelude.{ℕ, ℤ, Bool, Bytes, List, Option}
use cubesql_go_driver.Csdk.Types.{Pointer, Sdk}
use cubesql_go_driver.Core.Types.{World, background}
use cubesql_go_driver.Core.Act.{Act}
use cubesql_go_driver.Core.Rows
use cubesql_go_driver.Core.Scan
use cubesql_go_driver.Core.Scan.{Destination, Progress, Value}

module _ (sdk : Sdk) where
  abbrev pub new_rows : ℕ → Act ℕ
  new_rows handle = Rows.new_rows_context sdk background handle

  abbrev pub next : Pointer → Act Bool
  next rows = Rows.next_context sdk background rows

  abbrev pub seek : Pointer → (row : ℤ) → Act (Unit {0})
  seek rows row = Rows.seek_context sdk background rows row

  abbrev pub value : Pointer → (column : ℤ) → Act Value
  value rows column = Scan.value_context sdk background rows column

  abbrev pub scan :
      (parse_float : Bytes → Option ℕ) → Pointer → List Destination → World → Progress × World
  scan parse_float rows destinations =
      Scan.scan_context sdk parse_float background rows destinations
