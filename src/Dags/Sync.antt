-- ===== src/Dags/Sync.antt =====
-- dags/metabase_sync.py
pub mod Requests
use Prim.Native.String.{◌++◌ as ◌<>◌}
use crypto_streaming_lakehou.Base.{
  Bool, true, false, not, Option, none, some, String, List, [], ◌∷◌, text_eq, Try, ok, raised,
  ◌>>=◌, if◌then◌else◌,
}
use crypto_streaming_lakehou.Base.Json.{
  Json, null, bool, int, float, string, array, object, Items, nil, cons, Fields, end, field, get,
}

-- METABASE_URL, METABASE_ADMIN_EMAIL, METABASE_ADMIN_PASSWORD and METABASE_DATABASE_ID, if set
pub record Variables : Type 0 where
  pub url : Option String
  pub email : Option String
  pub password : Option String
  pub database_id : Option String

abbrev pub or_default : Option String → String → String
or_default none default = default
or_default (some value) default = value

-- A call of requests.post: the session with its user and password, or the sync with its token
pub data Post : Type 0 where
  session : String → String → String → Post
  sync_schema : String → Json → Post

-- A response: how raise_for_status ends, and how json does
pub record Response : Type 0 where
  pub status : Try (Unit {0})
  pub json : Try Json

pub data SyncLine : Type 0 where
  authentication_failed no_token sync_failed : SyncLine
  sync_triggered : String → SyncLine

-- What Python holds for false; `is_zero` says whether it reads the text of a number as zero.
abbrev pub is_falsy : (String → Bool) → Json → Bool
is_falsy is_zero null = true
is_falsy is_zero (bool b) = not b
is_falsy is_zero (int text) = is_zero text
is_falsy is_zero (float text) = is_zero text
is_falsy is_zero (string text) = text_eq text ""
is_falsy is_zero (array nil) = true
is_falsy is_zero (array (cons v vs)) = false
is_falsy is_zero (object end) = true
is_falsy is_zero (object (field k v fs)) = false

-- `not token`
abbrev pub token_of : (String → Bool) → Option Json → Option Json
token_of is_zero none = none
token_of is_zero (some token) = if is_falsy is_zero token then none else some token

-- `post` is how each call of requests.post ends.
module _ (is_zero : String → Bool) (post : Post → Try Response) where
  -- The first `try` block
  unfoldable pub authenticate : Post → Try (Option Json)
  unfolding get
  authenticate p = do response ← post p; checked ← response.status; v ← response.json; get "id" v

  -- The second `try` block
  unfoldable pub trigger : Post → Try (Unit {0})
  trigger p = do response ← post p; response.status

  abbrev pub line_of : String → Try (Unit {0}) → SyncLine
  line_of database_id (ok _) = sync_triggered database_id
  line_of database_id (raised e) = sync_failed

  abbrev pub with_token : Variables → Post → Option Json → List Post × SyncLine
  with_token v first none = (first ∷ [], no_token)
  with_token v first (some token) =
      let database_id = or_default v.database_id "2" in
      let second =
        sync_schema
          (or_default v.url "http://metabase:3000"
            <> ("/api/database/" <> (database_id <> "/sync_schema")))
          token in
      (first ∷ second ∷ [], line_of database_id (trigger second))

  abbrev pub after_authentication : Variables → Post → Try (Option Json) → List Post × SyncLine
  after_authentication v first (raised e) = (first ∷ [], authentication_failed)
  after_authentication v first (ok token) = with_token v first (token_of is_zero token)

  -- The calls of requests.post, in order, and the line that is logged
  unfoldable pub sync_metabase_schema : Variables → List Post × SyncLine
  unfolding authenticate trigger
  sync_metabase_schema v =
      let first =
        session (or_default v.url "http://metabase:3000" <> "/api/session") (or_default v.email "")
          (or_default v.password "") in
      after_authentication v first (authenticate first)
