-- ===== src/Manager/Tests.antt =====
-- The manager at concrete states.
use runtime_assistant_agent.Base.{
  String, true, ◌≡◌, ◌≢◌, refl, none, some, [], ◌∷◌, ◌++◌, ne_of_test,
}
use runtime_assistant_agent.Base.Dict.{lookup, insert}
use runtime_assistant_agent.UserConfig.{UserConfig, default_config}
use runtime_assistant_agent.Manager.{
  Entry, Limits, Manager, connects, hangs_up, init, step, run, get_or_create, evict_next,
  inject_config, user_id_key, reconnect, resumed, load_user_config, Outcome,
}
use runtime_assistant_agent.Manager.Capacity.{IsValid, runtimes_stay_within_capacity}
use runtime_assistant_agent.Manager.Eviction.{resumed_user_is_evicted}
use runtime_assistant_agent.Manager.Injection.{inject_config_overwrites_other}

abbrev limits : Limits
limits = record { max_instances = 2; idle_timeout = 300000; hangup_grace = 300000 }

abbrev config : UserConfig
config = record (default_config "u1") { tone = "formal" }

abbrev entry : Entry
entry = record { user_id = "u1"; user_config = config; last_active = 1000; hung_up_at = some 2000 }

-- one user, hung up, whom the last scan picked
abbrev one_user : Manager
one_user = record init { entries = ("u1", entry) ∷ []; reaper_running = true; evicting = "u1" ∷ [] }

distinct : ◌≢◌ {A = String} "u1" "u2"
distinct = ne_of_test "u1" "u2" refl

capacity_reached :
    (get_or_create limits "u3" (default_config "u3") 5 (
      run limits init
        (connects "u1" (default_config "u1") 1 ∷ connects "u2" (default_config "u2") 2 ∷ []))).1
    ≡ Outcome.limit_reached
unfolding get_or_create run step init lookup insert
capacity_reached = refl

runtimes_stay_within_capacity_example :
    IsValid limits (run limits init (connects "u1" config 1 ∷ hangs_up "u1" 5 ∷ []))
runtimes_stay_within_capacity_example =
    runtimes_stay_within_capacity limits (connects "u1" config 1 ∷ hangs_up "u1" 5 ∷ [])

resumed_user_is_evicted_example :
    let r = get_or_create limits "u1" config 400000 one_user in
    (r.1 ≡ resumed)
    × (lookup "u1" r.0.entries ≡ some (reconnect 400000 config entry))
    × (lookup "u1" (evict_next true r.0).entries ≡ none)
    × ((evict_next true r.0).stopped ≡ one_user.stopped ++ "u1" ∷ [])
unfolding lookup
resumed_user_is_evicted_example =
    resumed_user_is_evicted limits one_user "u1" [] entry config 400000 2000 true refl refl refl

inject_config_overwrites_other_example :
    lookup "u1" (inject_config "u2" user_id_key "u1" true one_user).0.disk
    ≡ some (record (load_user_config "u2" one_user.disk) { user_id = "u1" })
unfolding lookup
inject_config_overwrites_other_example =
    (inject_config_overwrites_other "u2" "u1" one_user (ne_of_test "u2" "u1" refl) refl).0
