-- ===== src/Sessions/Index.antt =====
-- The store in memory as the list of its records, for as long as each stands under its own key.
use runtime_assistant_agent.Base.{[], ◌∷◌, if◌then◌else◌, is_some, count_if}
use runtime_assistant_agent.Sessions.{
  SessionRecord, Store, has_key, find, without, is_of, without_user, new_record, touched, Operation,
  create, touch_run, delete, delete_by_user, Answer, stored, deleted, deleted_count,
}

-- the record in the place of the old one with its key, or behind the others
unfoldable pub put : SessionRecord → Store → Store
put r [] = r ∷ []
put r (s ∷ ss) =
    let rest = put r ss in if has_key r.user_id r.session_id s then r ∷ ss else s ∷ rest

unfoldable pub index_step : Operation → Store → Store × Answer
index_step (create user_id title session_id fresh_id now) ss =
    let r = new_record user_id title session_id fresh_id now in (put r ss, stored r)
index_step (touch_run user_id session_id r fresh_id now) ss =
    let s = touched user_id session_id r fresh_id now (find user_id session_id ss) in
    (put s ss, stored s)
index_step (delete user_id session_id) ss =
    (without user_id session_id ss, deleted (is_some (find user_id session_id ss)))
index_step (delete_by_user user_id) ss =
    (without_user user_id ss, deleted_count (count_if (is_of user_id) ss))
