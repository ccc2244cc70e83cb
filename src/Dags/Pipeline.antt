-- ===== src/Dags/Pipeline.antt =====
-- dags/crypto_pipeline_dag.py
pub mod Ordering
use crypto_streaming_lakehou.Base.{
  ℕ, ◌+◌, Bool, true, false, ◌&&◌, List, [], ◌∷◌, ◌++◌, bit, if◌then◌else◌,
}

pub data Task : Type 0 where
  dbt_run dbt_test lakehouse_export sync_metabase : Task

-- An edge: the second task is downstream of the first.
pub record Edge : Type 0 where
  pub upstream : Task
  pub downstream : Task

-- `a >> b >> …`
unfoldable pub chain : Task → List Task → List Edge
chain a [] = []
chain a (b ∷ tasks) = record { upstream = a; downstream = b } ∷ chain b tasks

unfoldable pub dependencies : List Edge
unfolding chain
dependencies = chain dbt_run (dbt_test ∷ lakehouse_export ∷ sync_metabase ∷ [])

-- default_args["retries"]
abbrev pub retries : ℕ
retries = 1

-- One try of a task in a run of the pipeline, and whether it succeeded.
pub record Attempt : Type 0 where
  pub task : Task
  pub succeeded : Bool

abbrev pub same_task : Task → Task → Bool
same_task dbt_run dbt_run = true
same_task dbt_test dbt_test = true
same_task lakehouse_export lakehouse_export = true
same_task sync_metabase sync_metabase = true
same_task _ _ = false

unfoldable pub succeeded_in : Task → List Attempt → Bool
succeeded_in task [] = false
succeeded_in task (a ∷ attempts) =
    let rest = succeeded_in task attempts in
    if same_task a.task task && a.succeeded then true else rest

unfoldable pub attempts_of : Task → List Attempt → ℕ
attempts_of task [] = 0
attempts_of task (a ∷ attempts) = bit (same_task a.task task) + attempts_of task attempts

unfoldable pub has_edge : Task → Task → List Edge → Bool
has_edge u t [] = false
has_edge u t (e ∷ edges) =
    let rest = has_edge u t edges in
    if same_task e.upstream u && same_task e.downstream t then true else rest
