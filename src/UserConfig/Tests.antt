-- ===== src/UserConfig/Tests.antt =====
-- A merge at a concrete call.
use runtime_assistant_agent.Base.{String, ◌≡◌, refl, Option, none, some}
use runtime_assistant_agent.UserConfig.{
  UserConfig, default_config, Key, language, user_info, agent_profile, tone, merge_config,
}

abbrev stored : UserConfig
stored = record (default_config "u1") { tone = "formal" }

abbrev call : Key → Option String
call language = some "en-US"
call user_info = some "likes tea"
call agent_profile = none
call tone = some "brief"

merged :
    merge_config stored call
    ≡ record stored { language = "en-US"; user_info = "likes tea"; tone = "formal" }
unfolding merge_config
merged = refl
