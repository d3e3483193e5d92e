-- ===== src/Adapter/Rows/Metadata.antt =====
-- The column metadata of database/cubesql/rows.go.
use cubesql_go_driver.Prelude.{
  ◌-◌, ◌^◌, ℤ, pos, pos_part, Bool, true, false, ◌||◌, Bytes, ascii, length, get_or, negative,
  leb_ℤ, if◌then◌else◌,
}
use cubesql_go_driver.Core.Scan.{
  ColumnType, none_type, integer, float, text, blob, boolean, date, time, timestamp, currency,
}
use cubesql_go_driver.Adapter.Rows.{Rows}

-- The types of `reflect` that stand for the columns.
pub data ScanType : Type 0 where
  any_type int64_type float64_type string_type bytes_type : ScanType

-- `index < 0 || index >= len(result.types)`
unfoldable pub out_of_range : Rows → ℤ → Bool
out_of_range rows index = negative index || leb_ℤ (pos (length rows.types)) index

abbrev type_at : Rows → ℤ → ColumnType
type_at rows index = get_or rows.types (pos_part index) none_type

abbrev pub name_of : ColumnType → Bytes
name_of integer = ascii "INTEGER"
name_of float = ascii "FLOAT"
name_of text = ascii "TEXT"
name_of blob = ascii "BLOB"
name_of boolean = ascii "BOOLEAN"
name_of date = ascii "DATE"
name_of time = ascii "TIME"
name_of timestamp = ascii "TIMESTAMP"
name_of currency = ascii "CURRENCY"
name_of _ = ascii "NULL"

unfoldable pub database_type_name : Rows → ℤ → Bytes
unfolding out_of_range
database_type_name rows index =
    if out_of_range rows index then ascii "" else name_of (type_at rows index)

unfoldable pub type_of : ColumnType → ScanType
type_of integer = int64_type
type_of boolean = int64_type
type_of float = float64_type
type_of currency = float64_type
type_of blob = bytes_type
type_of text = string_type
type_of date = string_type
type_of time = string_type
type_of timestamp = string_type
type_of _ = any_type

unfoldable pub scan_type : Rows → ℤ → ScanType
unfolding out_of_range type_of
scan_type rows index = if out_of_range rows index then any_type else type_of (type_at rows index)

abbrev is_long : ColumnType → Bool
is_long text = true
is_long blob = true
is_long _ = false

-- The length, and whether the type has one.
unfoldable pub type_length : Rows → ℤ → ℤ × Bool
unfolding out_of_range
type_length rows index =
    if out_of_range rows index
    then (pos 0, false)
    else if is_long (type_at rows index)
    then (pos (2 ^ 63 - 1), true)
    else (pos 0, false)

-- Nullability is never known.
abbrev pub nullable : Rows → ℤ → Bool × Bool
nullable rows index = (false, false)
