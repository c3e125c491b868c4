-- ===== src/Workflows/Graph.antt =====
-- `_replace_operations_with_position_resolution`: the graph of a workflow is stored in two passes,
-- first the operations, and then their references, from positions to keys.
use nd3x.Prelude.{
  ℕ, zero, suc, ◌+◌, Bool, String, Option, none, some, List, [], ◌∷◌, ◌++◌, any, length, str_eq,
  if◌then◌else◌,
}
use nd3x.Prelude.Results.{Result, returned, failed_with, ◌>>=◌}
use nd3x.Json.{Value, or_value, empty_dict}
use nd3x.Table.{modify}
use nd3x.Engine.{Dict, lookup, put}

-- The errors of the repository and the service.
pub data Error : Type 0 where
  not_found name_exists integrity_error : Error
  unknown_position : ℕ → Error

pub record OperationCreate : Type 0 where
  pub name : String
  pub operation_type : String
  pub operation_ref_id : ℕ
  pub config : Value
  pub depends_on : List ℕ
  pub on_success_follow_up : Option ℕ
  pub on_failure_follow_up : Option ℕ
  pub join_strategy : String
  pub timeout_seconds : Option ℕ
  pub retry_policy : Value
  pub position : ℕ

pub record OperationRow : Type 0 where
  pub id : ℕ
  pub workflow_id : ℕ
  pub name : String
  pub operation_type : String
  pub operation_ref_id : ℕ
  pub config : Value
  pub depends_on : List ℕ
  pub on_success_follow_up : Option ℕ
  pub on_failure_follow_up : Option ℕ
  pub join_strategy : String
  pub timeout_seconds : Option ℕ
  pub retry_policy : Value
  pub position : ℕ

abbrev pub row_key : OperationRow → ℕ
row_key o = o.id

-- `position or fallback`
abbrev pub or_fallback : ℕ → ℕ → ℕ
or_fallback zero fallback = fallback
or_fallback (suc n) fallback = suc n

-- _normalize_operation_payload: the schema has filled in everything but a position of 0.
unfoldable pub normalize_operation_payload : ℕ → OperationCreate → OperationCreate
normalize_operation_payload fallback op = record op { position = or_fallback op.position fallback }

-- enumerate(operations, start=index)
unfoldable pub normalize_all : ℕ → List OperationCreate → List OperationCreate
normalize_all index [] = []
normalize_all index (op ∷ ops) =
    normalize_operation_payload index op ∷ normalize_all (suc index) ops

abbrev pub text_or : String → String → String
text_or String.[] other = other
text_or s other = s

unfoldable pub bare_row : ℕ → ℕ → ℕ → OperationCreate → OperationRow
bare_row workflow_id id position op = record {
  id = id;
  workflow_id = workflow_id;
  name = op.name;
  operation_type = op.operation_type;
  operation_ref_id = op.operation_ref_id;
  config = or_value op.config empty_dict;
  depends_on = [];
  on_success_follow_up = none;
  on_failure_follow_up = none;
  join_strategy = text_or op.join_strategy "all";
  timeout_seconds = op.timeout_seconds;
  retry_policy = op.retry_policy;
  position = position;
}

-- What the first pass leaves: the rows, and the key at each position.
pub record Stored : Type 0 where
  pub rows : List OperationRow
  pub positions : Dict ℕ

abbrev pub has_name : String → List OperationRow → Bool
has_name name rows = any (λ o. str_eq o.name name) rows

-- PASS 1. Two operations of one name are refused by the database. A position that is used again
-- leads to the later row.
unfoldable pub store_operations :
    ℕ → (ℕ → ℕ) → ℕ → List OperationCreate → Stored → Result Error Stored
store_operations workflow_id fresh k [] done = returned done
store_operations workflow_id fresh k (op ∷ ops) done =
    let position = or_fallback op.position (length done.positions + 1) in
    let next = store_operations workflow_id fresh (suc k) ops (record {
      rows = done.rows ++ bare_row workflow_id (fresh k) position op ∷ [];
      positions = put position (fresh k) done.positions;
    }) in
    if has_name op.name done.rows then failed_with integrity_error else next

abbrev pub or_unknown : ℕ → Option ℕ → Result Error ℕ
or_unknown position none = failed_with (unknown_position position)
or_unknown position (some id) = returned id

unfoldable pub resolve_position_list : List ℕ → Dict ℕ → Result Error (List ℕ)
resolve_position_list [] positions = returned []
resolve_position_list (position ∷ values) positions =
    or_unknown position (lookup position positions) >>= λ id.
    resolve_position_list values positions >>= λ ids. returned (id ∷ ids)

unfoldable pub resolve_position_or_none : Option ℕ → Dict ℕ → Result Error (Option ℕ)
resolve_position_or_none none positions = returned none
resolve_position_or_none (some position) positions =
    or_unknown position (lookup position positions) >>= λ id. returned (some id)

abbrev pub set_references : List ℕ → Option ℕ → Option ℕ → OperationRow → OperationRow
set_references depends_on success failure o = record o {
  depends_on = depends_on;
  on_success_follow_up = success;
  on_failure_follow_up = failure;
}

-- The body of the second loop: the references of one payload, for the row at its position.
unfoldable pub resolve_one :
    OperationCreate → Dict ℕ → ℕ → List OperationRow → Result Error (List OperationRow)
resolve_one op positions id rows = resolve_position_list op.depends_on positions >>= λ depends_on.
    resolve_position_or_none op.on_success_follow_up positions >>= λ success.
    resolve_position_or_none op.on_failure_follow_up positions >>= λ failure.
    returned (modify row_key id (set_references depends_on success failure) rows)

-- PASS 2.
unfoldable pub resolve_references :
    List OperationCreate → Dict ℕ → List OperationRow → Result Error (List OperationRow)
resolve_references [] positions rows = returned rows
resolve_references (op ∷ ops) positions rows = elim (lookup op.position positions) [
  | none ↦ resolve_references ops positions rows
  | some id ↦ resolve_one op positions id rows >>= resolve_references ops positions
]

unfoldable pub replace_operations :
    ℕ → (ℕ → ℕ) → List OperationCreate → Result Error (List OperationRow)
replace_operations workflow_id fresh operations =
    let ops = normalize_all 1 operations in
    store_operations workflow_id fresh 0 ops (record { rows = []; positions = [] }) >>= λ done.
    resolve_references ops done.positions done.rows
