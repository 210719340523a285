-- ===== src/Sessions/Tests.antt =====
-- Two sessions of a user in both stores.
use runtime_assistant_agent.Base.{
  ℕ, map, String, Bool, ◌≡◌, refl, none, some, List, [], ◌∷◌, count_if,
}
use runtime_assistant_agent.Sessions.{
  SessionRecord, Run, Store, Memory, memory_get, memory_list, list_by_user, Operation, create,
  touch_run, delete, memory_step, jsonl_step, jsonl_get, run, upsert, touch_record,
}
use runtime_assistant_agent.Sessions.Agreement.{stores_agree}

abbrev one_run : Run
one_run = record { run_id = "r1"; message_preview = 104 ∷ 105 ∷ []; status = "completed" }

abbrev operations : List Operation
operations =
    create "u1" none (some "s1") "f1" 1
    ∷ touch_run "u1" "s2" one_run "f2" 2
    ∷ touch_run "u1" "s1" one_run "f3" 3
    ∷ create "u2" none none "f4" 4
    ∷ delete "u2" "f4"
    ∷ []

abbrev memory : Memory
memory = (run memory_step operations []).0

abbrev file : Store
file = (run jsonl_step operations []).0

-- The two stores list the sessions alike, the newest first.
listed_alike : memory_list "u1" memory ≡ list_by_user "u1" file
unfolding run memory_step jsonl_step upsert touch_record
listed_alike = refl

stores_agree_example :
    ((run memory_step operations []).1 ≡ (run jsonl_step operations []).1)
    × ((u k : String) → memory_get (u, k) memory ≡ jsonl_get u k file)
    × ((u : String) (p : SessionRecord → Bool)
        → count_if p (memory_list u memory) ≡ count_if p (list_by_user u file))
stores_agree_example = stores_agree operations (tt, (refl, (refl, (tt, (tt, tt)))))

-- two runs of a session without a name
abbrev unnamed : List Operation
unnamed = touch_run "u1" "" one_run "f1" 1 ∷ touch_run "u1" "" one_run "f2" 2 ∷ []

-- The store in memory finds the record of the first run again, the file does not: one session here, two
-- there.
unnamed_in_memory :
    map {B = ℕ} (λ s. s.run_count) (memory_list "u1" (run memory_step unnamed []).0) ≡ 2 ∷ []
unfolding run memory_step touch_record
unnamed_in_memory = refl

unnamed_in_file :
    map {B = ℕ} (λ s. s.run_count) (list_by_user "u1" (run jsonl_step unnamed []).0) ≡ 1 ∷ 1 ∷ []
unfolding run jsonl_step upsert touch_record
unnamed_in_file = refl
