-- ===== src/Cdc.antt =====
-- internal/indexing/cdc/event.go and document.go: change events, and the search document that a row
-- stands for.
pub mod Mapping
pub mod Parser
pub mod Service
use near_real_time_hybrid_se.Common.{
  ℕ, Bool, true, false, not, ◌||◌, List, [], ◌∷◌, ◌++◌, Option, none, some, if◌then◌else◌,
}
use near_real_time_hybrid_se.Common.Int.{ℤ}
use near_real_time_hybrid_se.Common.Bytes.{Bytes}
use near_real_time_hybrid_se.Common.Trim.{is_empty}
use near_real_time_hybrid_se.Errors.{Err, wrap}
use near_real_time_hybrid_se.Classify.{unknown_operation_error, missing_id_error}

-- A Go string type, of which the code names four values.
pub data Operation : Type 0 where
  create update delete read : Operation
  other_operation : Bytes → Operation

unfoldable pub is_upsert : Operation → Bool
is_upsert create = true
is_upsert update = true
is_upsert read = true
is_upsert _ = false

abbrev pub is_delete : Operation → Bool
is_delete delete = true
is_delete _ = false

unfoldable pub valid : Operation → Bool
unfolding is_upsert
valid op = is_upsert op || is_delete op

-- A decoded JSON value of a column; `other_value` is an array or an object.
pub data Value : Type 0 where
  null_value : Value
  text_value number_value : Bytes → Value
  bool_value : Bool → Value
  other_value : Value

-- A map[string]any; none for a missing column.
abbrev pub Row : Type 0
Row = Bytes → Option Value

-- Times are nanoseconds since the epoch, none for the zero time.
pub record ChangeEvent : Type 0 where
  pub id : Bytes
  pub operation : Operation
  pub schema : Bytes
  pub table : Bytes
  pub row : Row
  pub timestamp : Option ℤ
  pub database : Bytes
  pub lsn : ℤ
  pub tx_id : ℤ
  pub snapshot : Bool

unfoldable pub validate : ChangeEvent → Option Err
unfolding valid is_empty
validate ev =
    if is_empty ev.id
    then some (wrap missing_id_error)
    else if not (valid ev.operation)
    then some (wrap unknown_operation_error)
    else none

pub data Effect : Type 0 where
  no_effect indexed reapplied stale deleted : Effect
