-- ===== src/Dags/Tests.antt =====
-- Runs of dags/*.py.
use crypto_streaming_lakehou.Base.{
  String, text_eq, Bool, true, false, ◌≡◌, ◌⊎◌, refl, none, some, List, [], ◌∷◌, ◌++◌, Try, ok,
  raised, other, arith, append-nil, append_assoc, sym, ap, ◌∙◌,
}
use crypto_streaming_lakehou.Base.Int.{pos, ◌-ℤ◌}
use crypto_streaming_lakehou.Base.Json.{Json, string, object, field, end, get, get_field}
use crypto_streaming_lakehou.Dags.Pipeline.{
  Task, dbt_run, dbt_test, lakehouse_export, sync_metabase, Attempt, chain, dependencies, has_edge,
  succeeded_in,
}
use crypto_streaming_lakehou.Dags.Pipeline.Ordering.{IsScheduled, Preceded, attempt-Preceded}
use crypto_streaming_lakehou.Dags.Callbacks.{run_complete, on_dag_success}
use crypto_streaming_lakehou.Dags.Sync.{
  Variables, Post, session, sync_schema, Response, no_token, authentication_failed, sync_failed,
  line_of, authenticate, trigger, sync_metabase_schema,
}
use crypto_streaming_lakehou.Dags.Sync.Requests.{
  Granted, session_post, sync_post, sync_metabase_schema_lem,
}

abbrev by_default : Variables
by_default = record {
  url = none;
  email = some "admin";
  password = some "secret";
  database_id = none;
}

abbrev is_zero : String → Bool
is_zero text = text_eq text "0"

-- A server that grants the session and refuses the sync
abbrev answer : Post → Try Response
answer (session url user password) =
    ok record { status = ok tt; json = ok (object (field "id" (string "token") end)) }
answer (sync_schema url token) = ok record { status = raised other; json = raised other }

refused_sync : sync_metabase_schema is_zero answer by_default ≡ (
  session "http://metabase:3000/api/session" "admin" "secret"
      ∷ sync_schema "http://metabase:3000/api/database/2/sync_schema" (string "token")
      ∷ [],
  sync_failed,
)
unfolding sync_metabase_schema authenticate trigger get get_field
refused_sync = refl

lasts :
    on_dag_success record {
      dag_id = "crypto_pipeline";
      run_id = "r1";
      start_date = pos 3;
      end_date = some (pos 5);
    }
    ≡ run_complete "crypto_pipeline" "r1" (some (pos 2))
unfolding on_dag_success ◌-ℤ◌
lasts = refl

-- Each attempt of `rest`, after those that were seen, follows its direct upstreams.
abbrev Follows : List Attempt → List Attempt → Type 0
Follows seen [] = Unit
Follows seen (a ∷ rest) =
    ((u : Task) → has_edge u a.task dependencies ≡ true → succeeded_in u seen ≡ true)
    × Follows (seen ++ a ∷ []) rest

follows_lem :
    (seen rest before after : List Attempt) (a : Attempt) (u : Task)
    → Follows seen rest
    → rest ≡ before ++ a ∷ after
    → has_edge u a.task dependencies ≡ true
    → succeeded_in u (seen ++ before) ≡ true
follows_lem seen [] [] after a u f split edge = absurd (cc)
follows_lem seen [] (b ∷ before) after a u f split edge = absurd (cc)
follows_lem seen (b ∷ rest) [] after a u (f, fs) split edge =
    let same : b ≡ a = cc in
    ap (succeeded_in u) (append-nil seen)
    ∙ f u (ap (λ x. has_edge u x.task dependencies) same ∙ edge)
follows_lem seen (b ∷ rest) (c ∷ before) after a u (f, fs) split edge =
    let same : b ≡ c = cc in
    let tails : rest ≡ before ++ a ∷ after = cc in
    ap (λ x. succeeded_in u (seen ++ x ∷ before)) (sym same)
    ∙ ap (succeeded_in u) (sym (append_assoc seen (b ∷ []) before))
    ∙ follows_lem (seen ++ b ∷ []) rest before after a u fs tails edge

abbrev tried : Task → Bool → Attempt
tried task succeeded = record { task = task; succeeded = succeeded }

-- The first export fails.
abbrev hourly_run : List Attempt
hourly_run =
    tried dbt_run true
    ∷ tried dbt_test true
    ∷ tried lakehouse_export false
    ∷ tried lakehouse_export true
    ∷ tried sync_metabase true
    ∷ []

hourly_run-Follows : Follows [] hourly_run
unfolding has_edge dependencies chain succeeded_in
hourly_run-Follows = (
  (λ u h. ground (arith)),
  (
    (λ u h. ground (arith)),
    ((λ u h. ground (arith)), ((λ u h. ground (arith)), ((λ u h. ground (arith)), tt))),
  ),
)

hourly_run-IsScheduled : IsScheduled hourly_run
hourly_run-IsScheduled = record {
  ordered = λ before after a u split edge.
      follows_lem [] hourly_run before after a u hourly_run-Follows split edge;
}

attempt-Preceded_example : Preceded (lakehouse_export ∷ dbt_test ∷ dbt_run ∷ []) (
    tried dbt_run true
    ∷ tried dbt_test true
    ∷ tried lakehouse_export false
    ∷ tried lakehouse_export true
    ∷ [])
attempt-Preceded_example =
    attempt-Preceded hourly_run hourly_run-IsScheduled
      (tried dbt_run true
        ∷ tried dbt_test true
        ∷ tried lakehouse_export false
        ∷ tried lakehouse_export true
        ∷ [])
      [] (tried sync_metabase true) refl

sync_metabase_schema_lem_instance :
    let r = sync_metabase_schema is_zero answer by_default in
    ((token : Json) × Granted is_zero answer by_default token
      × (r ≡ (
        session_post is_zero answer by_default ∷ sync_post is_zero answer by_default token ∷ [],
        line_of is_zero answer "2"
            (trigger is_zero answer (sync_post is_zero answer by_default token)),
      )))
    ⊎ (r ≡ (session_post is_zero answer by_default ∷ [], no_token))
    ⊎ (r ≡ (session_post is_zero answer by_default ∷ [], authentication_failed))
sync_metabase_schema_lem_instance = sync_metabase_schema_lem is_zero answer by_default
