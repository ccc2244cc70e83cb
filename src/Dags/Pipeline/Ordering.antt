-- ===== src/Dags/Pipeline/Ordering.antt =====
-- The order in which the tasks of dags/crypto_pipeline_dag.py run.
use crypto_streaming_lakehou.Base.{
  true, ◌&&◌, List, [], ◌∷◌, ◌++◌, append_assoc, ◌≡◌, refl, ap, ◌∙◌, inl, inr, Bool-cases, arith,
}
use crypto_streaming_lakehou.Dags.Pipeline.{
  Task, dbt_run, dbt_test, lakehouse_export, sync_metabase, chain, dependencies, Attempt, same_task,
  succeeded_in, has_edge,
}

-- What Airflow promises of the attempts of one run: with the default trigger rule a task is tried
-- only after every task directly upstream of it has succeeded.
pub record IsScheduled (h : List Attempt) : Type 0 where
  pub ordered :
      (before after : List Attempt) (a : Attempt) (u : Task)
      → h ≡ before ++ a ∷ after
      → has_edge u a.task dependencies ≡ true
      → succeeded_in u before ≡ true

-- The tasks that a task waits for, the nearest first.
abbrev pub ancestors : Task → List Task
ancestors dbt_run = []
ancestors dbt_test = dbt_run ∷ []
ancestors lakehouse_export = dbt_test ∷ dbt_run ∷ []
ancestors sync_metabase = lakehouse_export ∷ dbt_test ∷ dbt_run ∷ []

-- A successful attempt of the first task, before that one of the second, and so on.
unfoldable pub Preceded : List Task → List Attempt → Type 0
Preceded [] h = Unit
Preceded (t ∷ tasks) h =
    (before : List Attempt) × (a : Attempt) × (after : List Attempt) × (h ≡ before ++ a ∷ after)
    × (a.task ≡ t)
    × (a.succeeded ≡ true)
    × Preceded tasks before

nothing_before : (h : List Attempt) → Preceded [] h
unfolding Preceded
nothing_before h = tt

same_task-eq : (a b : Task) → same_task a b ≡ true → a ≡ b
same_task-eq dbt_run dbt_run h = refl
same_task-eq dbt_test dbt_test h = refl
same_task-eq lakehouse_export lakehouse_export h = refl
same_task-eq sync_metabase sync_metabase h = refl
same_task-eq _ _ h = absurd (cc)

-- An attempt that succeeded, and what came before and after it.
pub record Success (t : Task) (h : List Attempt) : Type 0 where
  pub before : List Attempt
  pub attempt : Attempt
  pub after : List Attempt
  pub split : h ≡ before ++ attempt ∷ after
  pub named : attempt.task ≡ t
  pub succeeded : attempt.succeeded ≡ true

later-Success : {t : Task} {h : List Attempt} (a : Attempt) → Success t h → Success t (a ∷ h)
later-Success a s = record {
  before = a ∷ s.before;
  attempt = s.attempt;
  after = s.after;
  split = ap (λ l. a ∷ l) s.split;
  named = s.named;
  succeeded = s.succeeded;
}

find-Success : (t : Task) (h : List Attempt) → succeeded_in t h ≡ true → Success t h
unfolding succeeded_in
find-Success t [] h = absurd (cc)
find-Success t (a ∷ attempts) h = elim (Bool-cases (same_task a.task t && a.succeeded)) [
  | inl e ↦ record {
    before = [];
    attempt = a;
    after = attempts;
    split = refl;
    named = same_task-eq a.task t (ground (arith));
    succeeded = ground (arith);
  }
  | inr e ↦ later-Success a (find-Success t attempts (rw e at h))
]

module _ (h : List Attempt) (scheduled : IsScheduled h) where
  direct :
      (before after : List Attempt) (a : Attempt) (u : Task)
      → h ≡ before ++ a ∷ after
      → has_edge u a.task dependencies ≡ true
      → Success u before
  direct before after a u split edge =
      find-Success u before (scheduled.ordered before after a u split edge)

  -- The attempt in the whole history
  whole :
      (before after : List Attempt) (a : Attempt) (u : Task)
      → h ≡ before ++ a ∷ after
      → (s : Success u before) → h ≡ s.before ++ s.attempt ∷ (s.after ++ a ∷ after)
  whole before after a u split s =
      split
      ∙ ap (λ l. l ++ a ∷ after) s.split
      ∙ append_assoc s.before (s.attempt ∷ s.after) (a ∷ after)

  edge_to :
      (a : Attempt) (t u : Task)
      → a.task ≡ t
      → has_edge u t dependencies ≡ true
      → has_edge u a.task dependencies ≡ true
  edge_to a t u e k = ap (λ x. has_edge u x dependencies) e ∙ k

  before_dbt_test :
      (before after : List Attempt) (a : Attempt)
      → h ≡ before ++ a ∷ after
      → a.task ≡ dbt_test
      → Preceded (ancestors dbt_test) before
  unfolding has_edge dependencies chain Preceded
  before_dbt_test before after a split e =
      let s = direct before after a dbt_run split (edge_to a dbt_test dbt_run e refl) in
      (s.before, s.attempt, s.after, s.split, s.named, s.succeeded, tt)

  before_lakehouse_export :
      (before after : List Attempt) (a : Attempt)
      → h ≡ before ++ a ∷ after
      → a.task ≡ lakehouse_export
      → Preceded (ancestors lakehouse_export) before
  unfolding has_edge dependencies chain Preceded
  before_lakehouse_export before after a split e =
      let s = direct before after a dbt_test split (edge_to a lakehouse_export dbt_test e refl) in
      (
        s.before,
        s.attempt,
        s.after,
        s.split,
        s.named,
        s.succeeded,
        before_dbt_test s.before _ s.attempt (whole before after a dbt_test split s) s.named,
      )

  before_sync_metabase :
      (before after : List Attempt) (a : Attempt)
      → h ≡ before ++ a ∷ after
      → a.task ≡ sync_metabase
      → Preceded (ancestors sync_metabase) before
  unfolding has_edge dependencies chain Preceded
  before_sync_metabase before after a split e =
      let s =
        direct before after a lakehouse_export split
          (edge_to a sync_metabase lakehouse_export e refl) in
      (
        s.before,
        s.attempt,
        s.after,
        s.split,
        s.named,
        s.succeeded,
        before_lakehouse_export s.before _ s.attempt (whole before after a lakehouse_export split s)
            s.named,
      )

  -- In a run that Airflow schedules by the dependencies, every attempt of a task comes after a
  -- successful attempt of each task before it in the pipeline, in the order dbt_run, dbt_test,
  -- lakehouse_export, sync_metabase: no untested data is exported, and no failed export is synced.
  pub attempt-Preceded :
      (before after : List Attempt) (a : Attempt)
      → h ≡ before ++ a ∷ after
      → Preceded (ancestors a.task) before
  attempt-Preceded before after a split = by_task a.task refl
    where
      by_task : (t : Task) → a.task ≡ t → Preceded (ancestors t) before
      by_task dbt_run e = nothing_before before
      by_task dbt_test e = before_dbt_test before after a split e
      by_task lakehouse_export e = before_lakehouse_export before after a split e
      by_task sync_metabase e = before_sync_metabase before after a split e
