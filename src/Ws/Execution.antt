-- ===== src/Ws/Execution.antt =====
-- kis/ws/execution.go: the execution notice of the domestic streams.
use go_kis.Prelude.{ℕ, Bool, ◌||◌, List, Option, if◌then◌else◌, ◌==◌, length, ℤ, pos}
use go_kis.Text.{Bytes, codes, text_eq, trim_space, parse_int}
use go_kis.Ws.Frame.{field, tr_execution_live, tr_execution_vts}

pub data Side : Type 0 where
  unknown sell buy : Side

abbrev pub execution_field_count : ℕ
execution_field_count = 14

pub record Execution : Type 0 where
  pub order_no : Bytes
  pub symbol : Bytes
  pub side : Side
  pub qty : Bytes
  pub price : Bytes
  pub filled_at : Bytes
  pub filled : Bytes

-- The value of executionFieldCountError is the number of fields met.
pub data ExecutionResult : Type 0 where
  parsed : Execution → ExecutionResult
  field_count_error : ℕ → ExecutionResult

-- `none` is errNotNumeric.
unfoldable pub qty_int : Execution → Option ℤ
qty_int e = parse_int (trim_space e.qty)

unfoldable pub is_execution : Bytes → Bool
is_execution tr = text_eq tr tr_execution_live || text_eq tr tr_execution_vts

unfoldable pub side_of_code : Bytes → Side
side_of_code code =
    if text_eq code (codes "01") || text_eq code (codes "1") || text_eq code (codes "S")
    then Side.sell
    else if text_eq code (codes "02") || text_eq code (codes "2") || text_eq code (codes "B")
    then Side.buy
    else Side.unknown

unfoldable pub parse_side : Bytes → Side
parse_side code = side_of_code (trim_space code)

unfoldable pub parse_execution : List Bytes → ExecutionResult
parse_execution fields =
    if length fields == execution_field_count
    then ExecutionResult.parsed (record {
      order_no = field fields (pos 2);
      symbol = field fields (pos 8);
      side = parse_side (field fields (pos 4));
      qty = field fields (pos 9);
      price = field fields (pos 10);
      filled_at = field fields (pos 11);
      filled = field fields (pos 13);
    })
    else ExecutionResult.field_count_error (length fields)

-- SetString of math/big's Rat, `none` where it does not succeed.
module _ {Rat : Type 0} (set_string : Bytes → Option Rat) where
  -- `none` is errNotNumeric.
  unfoldable pub price_rat : Execution → Option Rat
  price_rat e = set_string (trim_space e.price)
