-- ===== src/UserConfig.antt =====
-- runTime/src/openclaw_gateway_runtime/gateway/user_config.py: the per-user configuration and its
-- merge with what an incoming call brings. The JSON file is a `Dict UserConfig` of the disk, in
-- Manager; the time stamp `last_updated` is left out.
pub mod Merge
mod Tests
use runtime_assistant_agent.Base.{String, Bool, Option, none, some, ◌==◌, ◌||◌, if◌then◌else◌}

pub record UserConfig : Type 0 where
  pub user_id : String
  pub language : String
  pub user_info : String
  pub agent_profile : String
  pub tone : String

-- `UserConfig(user_id=user_id)`
abbrev pub default_config : String → UserConfig
default_config user_id = record {
  user_id = user_id;
  language = "zh-CN";
  user_info = "";
  agent_profile = "default";
  tone = "friendly";
}

-- The four fields that `merge_config` and `get_or_create` go through.
pub data Key : Type 0 where
  language user_info agent_profile tone : Key

abbrev pub get_field : Key → UserConfig → String
get_field language c = c.language
get_field user_info c = c.user_info
get_field agent_profile c = c.agent_profile
get_field tone c = c.tone

abbrev pub set_field : Key → String → UserConfig → UserConfig
set_field language v c = record c { language = v }
set_field user_info v c = record c { user_info = v }
set_field agent_profile v c = record c { agent_profile = v }
set_field tone v c = record c { tone = v }

abbrev is_language : Key → Bool
is_language language = Bool.true
is_language user_info = Bool.false
is_language agent_profile = Bool.false
is_language tone = Bool.false

-- one round of the loop of `merge_config`
merge_field : UserConfig → (Key → Option String) → Key → UserConfig → UserConfig
merge_field local incoming key merged = elim (incoming key) [
  | none ↦ merged
  | some v ↦
      if is_language key || get_field key local == get_field key (default_config local.user_id)
      then set_field key v merged
      else merged
]

unfoldable pub merge_config : UserConfig → (Key → Option String) → UserConfig
unfolding merge_field
merge_config local incoming = merge_field local incoming tone (
    merge_field local incoming agent_profile
      (merge_field local incoming user_info (merge_field local incoming language local)))
