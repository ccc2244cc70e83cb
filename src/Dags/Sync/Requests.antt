-- ===== src/Dags/Sync/Requests.antt =====
-- The requests of dags/metabase_sync.py.
use Prim.Native.String.{◌++◌ as ◌<>◌}
use crypto_streaming_lakehou.Base.{
  Bool, false, Option, none, some, String, [], ◌∷◌, Try, ok, ◌≡◌, refl, ap, ◌∙◌, inl, inr, ◌⊎◌,
  Try-cases, Bool-cases,
}
use crypto_streaming_lakehou.Base.Json.{Json}
use crypto_streaming_lakehou.Dags.Sync.{
  Variables, or_default, Post, session, sync_schema, Response, authentication_failed, no_token,
  is_falsy, token_of, authenticate, trigger, line_of, with_token, after_authentication,
  sync_metabase_schema,
}

module _ (is_zero : String → Bool) (post : Post → Try Response) (v : Variables) where
  -- The first request, and the second one with a token
  abbrev pub session_post : Post
  session_post =
      session (or_default v.url "http://metabase:3000" <> "/api/session") (or_default v.email "")
        (or_default v.password "")

  abbrev pub sync_post : Json → Post
  sync_post = sync_schema (
      or_default v.url "http://metabase:3000"
      <> ("/api/database/" <> (or_default v.database_id "2" <> "/sync_schema")))

  -- The session was granted with a token that Python holds for true.
  abbrev pub Granted : Json → Type 0
  Granted token =
      (authenticate is_zero post session_post ≡ ok (some token)) × (is_falsy is_zero token ≡ false)

  sent_with :
      (t : Option Json)
      → authenticate is_zero post session_post ≡ ok t
      → let r = with_token is_zero post v session_post (token_of is_zero t) in
        ((token : Json) × Granted token
          × (r ≡ (
            session_post ∷ sync_post token ∷ [],
            line_of is_zero post
                (or_default v.database_id "2")
                (trigger is_zero post (sync_post token)),
          )))
        ⊎ (r ≡ (session_post ∷ [], no_token))
  sent_with none e = inr refl
  sent_with (some token) e = elim (Bool-cases (is_falsy is_zero token)) [
    | inl f ↦ inr (rw f refl)
    | inr f ↦ inl (token, (e, f), rw f refl)
  ]

  -- The sync is requested, with the token of the session, if and only if the session was granted
  -- and the token is not empty; else only the session was requested, and one line says which of
  -- both failed. Nothing is raised, whatever the requests do.
  pub sync_metabase_schema_lem :
      let r = sync_metabase_schema is_zero post v in
      ((token : Json) × Granted token
        × (r ≡ (
          session_post ∷ sync_post token ∷ [],
          line_of is_zero post
              (or_default v.database_id "2")
              (trigger is_zero post (sync_post token)),
        )))
      ⊎ (r ≡ (session_post ∷ [], no_token))
      ⊎ (r ≡ (session_post ∷ [], authentication_failed))
  unfolding sync_metabase_schema
  sync_metabase_schema_lem = elim (Try-cases (authenticate is_zero post session_post)) [
    | inl (t, e) ↦
        let same = ap (after_authentication is_zero post v session_post) e in
        elim (sent_with t e) [
          | inl (token, granted, sent) ↦ inl (token, granted, same ∙ sent)
          | inr none_sent ↦ inr (inl (same ∙ none_sent))
        ]
    | inr (x, e) ↦ inr (inr (ap (after_authentication is_zero post v session_post) e))
  ]
