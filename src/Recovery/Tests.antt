-- ===== src/Recovery/Tests.antt =====
-- The recovery of a small database, on which its theorems are applied.
use nd3x.Prelude.{◌≡◌, refl, true, none, some}
use nd3x.Table.{map_option}
use nd3x.Runs.{RunStatus, OperationStatus, get_run, get_operation_run, is_terminal_operation}
use nd3x.Runs.Tests.{family, run_of, operation_of}
use nd3x.Recovery.{is_in_flight, recover_orphaned_runs, recovered_db}
use nd3x.Recovery.Verdict.{
  recovered_row, ended_operation, get_run-recovered_db, recovered-operations,
}

get_run-recovered_db_example :
    get_run 1 (recovered_db 3 20 family)
    ≡ map_option (recovered_row 3 20 family.operation_runs) (get_run 1 family)
get_run-recovered_db_example = get_run-recovered_db 3 20 1 family

recovered-operations_example :
    (get_operation_run 1 (recovered_db 3 20 family)
      ≡ some (
          ended_operation 3 20
            (run_of 1 RunStatus.running none none)
            (operation_of 1 OperationStatus.running none)))
    × (is_terminal_operation
          (ended_operation 3 20
            (run_of 1 RunStatus.running none none)
            (operation_of 1 OperationStatus.running none)).status
        ≡ true)
unfolding nd3x.Table.find nd3x.Recovery.is_fresh nd3x.Recovery.last_activity nd3x.Recovery.latest_of
recovered-operations_example =
    recovered-operations 3 20 family (run_of 1 RunStatus.running none none) 1
      (operation_of 1 OperationStatus.running none) refl refl refl refl
