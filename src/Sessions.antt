-- ===== src/Sessions.antt =====
-- assistant_agent/src/assistant_agent/services/session_store.py with the records of schemas/sessions.py:
-- the store in memory, a dict by the pair of user and session, and the store in a file of JSON lines. The
-- file is the list of records that it is read as. Texts that are cut are lists of code points; times are
-- numbers, handed to an operation; metadata and the trace id, which are only stored, are left out.
pub mod Index
pub mod Upsert
pub mod Keyed
pub mod Agreement
mod Tests
use runtime_assistant_agent.Base.{
  ℕ, suc, ◌+◌, ◌-◌, String, Bool, true, false, not, ◌&&◌, Option, none, some, List, [], ◌∷◌, ◌++◌,
  ◌==◌, if◌then◌else◌, given, get_or, is_some, ltb, leb, nat_beq, length, take, count_if, filter_if,
}
use runtime_assistant_agent.Base.Strings.{is_space}
use runtime_assistant_agent.Chunking.{Text, strip}

pub record SessionRecord : Type 0 where
  pub user_id : String
  pub session_id : String
  pub thread_id : String
  pub title : Option Text
  pub run_count : ℕ
  pub last_run_id : Option String
  pub last_message_preview : Text
  pub last_status : Option String
  pub created_at : ℕ
  pub updated_at : ℕ

pub record Run : Type 0 where
  pub run_id : String
  pub message_preview : Text
  pub status : String

-- `_new_session_record`, with the id that `new_session_id` would give
abbrev pub new_record : String → Option Text → Option String → String → ℕ → SessionRecord
new_record user_id title session_id fresh_id now =
    let resolved = get_or (given session_id) fresh_id in
    record {
      user_id = user_id;
      session_id = resolved;
      thread_id = resolved;
      title = title;
      run_count = 0;
      last_run_id = none;
      last_message_preview = [];
      last_status = none;
      created_at = now;
      updated_at = now;
    }

abbrev join_words : ℕ → Text → Text
join_words c [] = if is_space c then [] else c ∷ []
join_words c (d ∷ ds) =
    if is_space c then (if nat_beq d 32 then d ∷ ds else 32 ∷ d ∷ ds) else c ∷ d ∷ ds

abbrev squeeze : Text → Text
squeeze [] = []
squeeze (c ∷ cs) = join_words c (squeeze cs)

-- `" ".join(text.split())`
abbrev flatten : Text → Text
flatten t = squeeze (strip t)

-- `t if len(t) <= limit else t[:limit - 1] + "…"`
abbrev pub cut : ℕ → Text → Text
cut limit t = if leb (length t) limit then t else take t (limit - 1) ++ 8230 ∷ []

-- `_preview`
abbrev pub preview_of : Text → Text
preview_of t = cut 80 (flatten t)

-- `_default_title`
abbrev default_title : Text → Option Text
default_title [] = none
default_title (c ∷ cs) = some (cut 24 (c ∷ cs))

-- `record.title or _default_title(preview)`
abbrev title_or_default : Option Text → Text → Option Text
title_or_default none preview = default_title preview
title_or_default (some []) preview = default_title preview
title_or_default (some (c ∷ cs)) preview = some (c ∷ cs)

-- `_touch_record`
pub touch_record : Run → ℕ → SessionRecord → SessionRecord
touch_record r now s =
    let preview = preview_of r.message_preview in
    record s {
      title = title_or_default s.title preview;
      run_count = suc s.run_count;
      last_run_id = some r.run_id;
      last_message_preview = preview;
      last_status = some r.status;
      updated_at = now;
    }

abbrev pub has_key : String → String → SessionRecord → Bool
has_key user_id session_id s = s.user_id == user_id && s.session_id == session_id

abbrev pub Store : Type 0
Store = List SessionRecord

-- the first record under a key
abbrev pub find : String → String → Store → Option SessionRecord
find user_id session_id [] = none
find user_id session_id (s ∷ ss) =
    if has_key user_id session_id s then some s else find user_id session_id ss

-- the records under no such key
abbrev pub without : String → String → Store → Store
without user_id session_id ss = filter_if (λ s. not (has_key user_id session_id s)) ss

abbrev pub is_of : String → SessionRecord → Bool
is_of user_id s = s.user_id == user_id

abbrev pub without_user : String → Store → Store
without_user user_id ss = filter_if (λ s. not (is_of user_id s)) ss

-- `JsonlSessionStore._upsert`
pub upsert : SessionRecord → Store → Store
upsert r ss = without r.user_id r.session_id ss ++ r ∷ []

-- newest first, records of one time in the order of the list
abbrev pub place : SessionRecord → Store → Store
place s [] = s ∷ []
place s (t ∷ ts) =
    let rest = place s ts in if leb t.updated_at s.updated_at then s ∷ t ∷ ts else t ∷ rest

-- `sorted(..., key=lambda record: record.updated_at, reverse=True)`
abbrev pub newest_first : Store → Store
newest_first [] = []
newest_first (s ∷ ss) = place s (newest_first ss)

-- `JsonlSessionStore.list_by_user`
abbrev pub list_by_user : String → Store → Store
list_by_user user_id ss = newest_first (filter_if (is_of user_id) ss)

pub data Operation : Type 0 where
  create : String → Option Text → Option String → String → ℕ → Operation
  touch_run : String → String → Run → String → ℕ → Operation
  delete : String → String → Operation
  delete_by_user : String → Operation

pub data Answer : Type 0 where
  stored : SessionRecord → Answer
  deleted : Bool → Answer
  deleted_count : ℕ → Answer

-- the record that `touch_run` stores, with what `get` gives for its key
abbrev pub touched : String → String → Run → String → ℕ → Option SessionRecord → SessionRecord
touched user_id session_id r fresh_id now existing =
    touch_record r now (get_or existing (new_record user_id none (some session_id) fresh_id now))

abbrev pub Key : Type 0
Key = String × String

abbrev pub same_key : Key → Key → Bool
same_key a b = a.0 == b.0 && a.1 == b.1

-- `_records` of `InMemorySessionStore`, in the order of insertion
abbrev pub Memory : Type 0
Memory = List (Key × SessionRecord)

-- `InMemorySessionStore.get`
abbrev pub memory_get : Key → Memory → Option SessionRecord
memory_get key [] = none
memory_get key ((j, s) ∷ m) = if same_key j key then some s else memory_get key m

-- `_records[key] = record`
abbrev pub memory_put : Key → SessionRecord → Memory → Memory
memory_put key r [] = (key, r) ∷ []
memory_put key r ((j, s) ∷ m) =
    let rest = memory_put key r m in if same_key j key then (j, r) ∷ m else (j, s) ∷ rest

abbrev pub values : Memory → Store
values [] = []
values ((key, s) ∷ m) = s ∷ values m

-- the entries of a user, by the key
abbrev pub entries_of : String → Memory → Memory
entries_of user_id m = filter_if (λ (e : Key × SessionRecord). e.0.0 == user_id) m

-- `InMemorySessionStore.list_by_user`
abbrev pub memory_list : String → Memory → Store
memory_list user_id m = newest_first (values (entries_of user_id m))

abbrev pub memory_without : Key → Memory → Memory
memory_without key m = filter_if (λ (e : Key × SessionRecord). not (same_key e.0 key)) m

abbrev pub memory_without_user : String → Memory → Memory
memory_without_user user_id m = filter_if (λ (e : Key × SessionRecord). not (e.0.0 == user_id)) m

-- `InMemorySessionStore`. A new record is stored under its own key, the record of a run under the key
-- that is asked for, whatever its own is.
unfoldable pub memory_step : Operation → Memory → Memory × Answer
memory_step (create user_id title session_id fresh_id now) m =
    let r = new_record user_id title session_id fresh_id now in
    (memory_put (r.user_id, r.session_id) r m, stored r)
memory_step (touch_run user_id session_id r fresh_id now) m =
    let s = touched user_id session_id r fresh_id now (memory_get (user_id, session_id) m) in
    (memory_put (user_id, session_id) s m, stored s)
memory_step (delete user_id session_id) m =
    (memory_without (user_id, session_id) m, deleted (is_some (memory_get (user_id, session_id) m)))
memory_step (delete_by_user user_id) m =
    (memory_without_user user_id m, deleted_count (length (entries_of user_id m)))

-- `JsonlSessionStore.get`
abbrev pub jsonl_get : String → String → Store → Option SessionRecord
jsonl_get user_id session_id ss = find user_id session_id (list_by_user user_id ss)

-- `JsonlSessionStore`
pub jsonl_step : Operation → Store → Store × Answer
jsonl_step (create user_id title session_id fresh_id now) ss =
    let r = new_record user_id title session_id fresh_id now in (upsert r ss, stored r)
jsonl_step (touch_run user_id session_id r fresh_id now) ss =
    let s = touched user_id session_id r fresh_id now (jsonl_get user_id session_id ss) in
    (upsert s ss, stored s)
jsonl_step (delete user_id session_id) ss =
    let remaining = without user_id session_id ss in
    if nat_beq (length remaining) (length ss)
    then (ss, deleted false)
    else (remaining, deleted true)
jsonl_step (delete_by_user user_id) ss =
    let remaining = without_user user_id ss in
    let count = length ss - length remaining in
    if nat_beq count 0 then (ss, deleted_count 0) else (remaining, deleted_count count)

-- operations one after another, with their answers
unfoldable pub run :
    {S : Type 0} → (Operation → S → S × Answer) → List Operation → S → S × List Answer
run step [] ss = (ss, [])
run step (o ∷ os) ss =
    let (next, answer) = step o ss in
    let (last, answers) = run step os next in (last, answer ∷ answers)
