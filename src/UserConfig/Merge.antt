-- ===== src/UserConfig/Merge.antt =====
-- What a merge of the stored and the incoming configuration yields.
use runtime_assistant_agent.Base.{String, ◌≡◌, Option, none, some, arith, ◌==◌, if◌then◌else◌}
use runtime_assistant_agent.UserConfig.{
  UserConfig, default_config, Key, language, user_info, agent_profile, tone, get_field,
  merge_config,
}

-- what one field has to be after a merge
abbrev pub merged_value : Key → UserConfig → Option String → String
merged_value key local none = get_field key local
merged_value language local (some v) = v
merged_value key local (some v) =
    if get_field key local == get_field key (default_config local.user_id)
    then v
    else get_field key local

-- After a merge, the language is the incoming one where there is one; any other field is the
-- incoming value exactly where one came in and the stored value is the default, and the stored value
-- otherwise; and the user is the same.
pub merge_config-fields :
    (local : UserConfig) (incoming : Key → Option String) (key : Key)
    → (get_field key (merge_config local incoming) ≡ merged_value key local (incoming key))
      × ((merge_config local incoming).user_id ≡ local.user_id)
unfolding merge_config
merge_config-fields local incoming language = (ground arith, ground arith)
merge_config-fields local incoming user_info = (ground arith, ground arith)
merge_config-fields local incoming agent_profile = (ground arith, ground arith)
merge_config-fields local incoming tone = (ground arith, ground arith)
