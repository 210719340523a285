-- ===== src/Manager/Injection.antt =====
-- Configuration changes from outside.
use runtime_assistant_agent.Base.{
  String, true, false, ◌≡◌, ◌≢◌, refl, none, some, arith, ◌==◌, eq_iff, eq_refl, if◌then◌else◌,
}
use runtime_assistant_agent.Base.Dict.{Dict, lookup, lookup-insert}
use runtime_assistant_agent.UserConfig.{
  UserConfig, Key, language, user_info, agent_profile, tone, set_field,
}
use runtime_assistant_agent.Manager.{
  Entry, Manager, field, user_id_key, load_user_config, save, inject_config,
}

lookup-save :
    (j : String) (c : UserConfig) (d : Dict UserConfig)
    → lookup j (save true c d) ≡ (if c.user_id == j then some c else lookup j d)
unfolding save
lookup-save j c d = rw lookup-insert

user_id-set_field : (k : Key) (v : String) (c : UserConfig) → (set_field k v c).user_id ≡ c.user_id
user_id-set_field language v c = refl
user_id-set_field user_info v c = refl
user_id-set_field agent_profile v c = refl
user_id-set_field tone v c = refl

-- Changing a field of a user who is online, with the write going through: it is reported as online,
-- the live entry has the changed configuration and is otherwise the same, the disk has it too, and no
-- other user's entry changes.
pub inject_config_online :
    (uid : String) (k : Key) (value : String) (m : Manager) (e : Entry) (j : String)
    → lookup uid m.entries ≡ some e
    → let (m', online) = inject_config uid (field k) value true m in
      (online ≡ true)
      × (lookup j m'.entries ≡ (
          if uid == j
          then some (record e { user_config = set_field k value e.user_config })
          else lookup j m.entries))
      × (lookup e.user_config.user_id m'.disk ≡ some (set_field k value e.user_config))
unfolding inject_config
inject_config_online uid k value m e j l =
    rw l (refl, lookup-insert uid j _ m.entries, rw (lookup-save, user_id-set_field, eq_refl))

-- Changing a field of a user who is offline, with the write going through: it is reported as offline,
-- no entry changes, the disk has what it had for the user, or the defaults, with the field changed, and
-- keeps what it has for every other user.
pub inject_config_offline :
    (uid : String) (k : Key) (value : String) (m : Manager) (j : String)
    → lookup uid m.entries ≡ none
    → let (m', online) = inject_config uid (field k) value true m in
      (online ≡ false)
      × (m'.entries ≡ m.entries)
      × (lookup j m'.disk ≡ (
          if uid == j
          then some (set_field k value (load_user_config uid m.disk))
          else lookup j m.disk))
unfolding inject_config
inject_config_offline uid k value m j l = rw l (refl, refl, rw (lookup-save, user_id-set_field))

-- A change of the attribute `user_id` is not refused: for a user who is offline it writes that user's
-- configuration over the stored one of whatever user the value names, and stores nothing for the user
-- itself.
pub inject_config_overwrites_other :
    (uid victim : String) (m : Manager)
    → uid ≢ victim
    → lookup uid m.entries ≡ none
    → let (m', online) = inject_config uid user_id_key victim true m in
      (lookup victim m'.disk ≡ some (record (load_user_config uid m.disk) { user_id = victim }))
      × (lookup uid m'.disk ≡ lookup uid m.disk)
unfolding inject_config
inject_config_overwrites_other uid victim m ne l =
    rw l (rw (lookup-save, eq_refl), rw lookup-save (ground (arith, eq_iff victim uid)))
