-- ===== src/Dags/Callbacks.antt =====
-- dags/dag_callbacks.py
use crypto_streaming_lakehou.Base.{String, Option, none, some}
use crypto_streaming_lakehou.Base.Int.{ℤ, ◌-ℤ◌}

-- What the callbacks read of Airflow's context; instants are microseconds.
pub record FailureContext : Type 0 where
  pub dag_id : String
  pub task_id : String
  pub run_id : String
  pub exception : Option String

pub record SuccessContext : Type 0 where
  pub dag_id : String
  pub run_id : String
  pub start_date : ℤ
  pub end_date : Option ℤ

-- A structured line; `duration` is in microseconds.
pub data LogLine : Type 0 where
  task_failed : String → String → String → String → LogLine
  run_complete : String → String → Option ℤ → LogLine

-- str(context.get("exception"))
abbrev pub exception_text : Option String → String
exception_text none = "None"
exception_text (some text) = text

unfoldable pub on_task_failure : FailureContext → LogLine
on_task_failure c = task_failed c.dag_id c.task_id c.run_id (exception_text c.exception)

-- (end_date - start_date).total_seconds() if end_date else None
abbrev pub duration_between : ℤ → Option ℤ → Option ℤ
duration_between start none = none
duration_between start (some end) = some (end -ℤ start)

unfoldable pub on_dag_success : SuccessContext → LogLine
unfolding ◌-ℤ◌
on_dag_success c = run_complete c.dag_id c.run_id (duration_between c.start_date c.end_date)
