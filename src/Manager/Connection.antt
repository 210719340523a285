-- ===== src/Manager/Connection.antt =====
-- A user who connects, hangs up and calls back.
use runtime_assistant_agent.Base.{
  ℕ, suc, ◌≤◌, ◌<◌, ◌-◌, String, true, false, ◌≡◌, refl, ap, ◌∙◌, Option, none, some, arith,
  eq_refl, is_some, length, if◌then◌else◌,
}
use runtime_assistant_agent.Base.Dict.{lookup, lookup-insert, length-insert}
use runtime_assistant_agent.UserConfig.{
  UserConfig, Key, language, user_info, agent_profile, tone, get_field,
}
use runtime_assistant_agent.Manager.{
  Entry, Limits, Manager, is_expired, get_or_create, connect_entry, reconnect, resumed, reused,
  created, limit_reached, Outcome, mark_hangup, hang_up, new_entry, resume, with_config,
}

-- What a call of `get_or_create` has to do, given the entry of the user that it finds.
abbrev pub Connects :
    Limits → String → UserConfig → ℕ → Manager → Option Entry → Manager × Outcome → Type 0
Connects lim uid c now m (some e) (m', outcome) =
    (outcome ≡ (if is_some e.hung_up_at then resumed else reused))
    × (lookup uid m'.entries ≡ some (reconnect now c e))
    × (length m'.entries ≡ length m.entries)
Connects lim uid c now m none (m', outcome) =
    (lim.max_instances ≤ length m.entries → (outcome ≡ limit_reached) × (m' ≡ m))
    × (length m.entries < lim.max_instances
        → (outcome ≡ created)
          × (lookup uid m'.entries ≡ some (new_entry uid c now))
          × (length m'.entries ≡ suc (length m.entries))
          × (m'.reaper_running ≡ true))

connect_entry-Connects :
    (lim : Limits) (uid : String) (c : UserConfig) (now : ℕ) (m : Manager) (o : Option Entry)
    → lookup uid m.entries ≡ o
    → Connects lim uid c now m o (connect_entry lim uid c now o m)
connect_entry-Connects lim uid c now m (some e) l =
    (refl, rw (lookup-insert, eq_refl), rw (length-insert, l))
connect_entry-Connects lim uid c now m none l = (
  λ full. ground arith,
  λ room. ground (
    arith,
    l,
    lookup-insert uid uid (new_entry uid c now) m.entries,
    eq_refl uid,
    length-insert uid (new_entry uid c now) m.entries,
  ),
)

-- `get_or_create`, for every user: an entry that is there is kept and given the new configuration, and
-- is resumed if it was hung up; a new one is made, with the reaper running, exactly while there are
-- fewer than `max_instances`; at the limit nothing changes.
pub get_or_create-Connects :
    (lim : Limits) (uid : String) (c : UserConfig) (now : ℕ) (m : Manager)
    → Connects lim uid c now m (lookup uid m.entries) (get_or_create lim uid c now m)
unfolding get_or_create
get_or_create-Connects lim uid c now m =
    connect_entry-Connects lim uid c now m (lookup uid m.entries) refl

lookup-get_or_create :
    (lim : Limits) (uid : String) (c : UserConfig) (now : ℕ) (m : Manager) (e : Entry)
    → lookup uid m.entries ≡ some e
    → lookup uid (get_or_create lim uid c now m).0.entries ≡ some (reconnect now c e)
unfolding get_or_create
lookup-get_or_create lim uid c now m e l = rw (l, lookup-insert, eq_refl)

lookup-mark_hangup :
    (uid : String) (now : ℕ) (m : Manager) (e : Entry)
    → lookup uid m.entries ≡ some e
    → lookup uid (mark_hangup uid now m).entries ≡ some (hang_up now e)
unfolding mark_hangup
lookup-mark_hangup uid now m e l = rw (l, lookup-insert, eq_refl)

hang_up-reconnect :
    (c : UserConfig) (hung now : ℕ) (e : Entry)
    → reconnect now c (hang_up hung e) ≡ resume now (with_config c e)
hang_up-reconnect c hung now e = ground arith

get_field-with_config :
    (c : UserConfig) (e : Entry) (k : Key)
    → get_field k (with_config c e).user_config ≡ get_field k c
get_field-with_config c e language = refl
get_field-with_config c e user_info = refl
get_field-with_config c e agent_profile = refl
get_field-with_config c e tone = refl

-- A user who hangs up and calls back has an entry that is not hung up and holds the new configuration;
-- it survives every scan for the whole of the idle time from then on.
pub callback_survives :
    (lim : Limits) (uid : String) (c : UserConfig) (hung now later : ℕ) (m : Manager) (e : Entry)
    → lookup uid m.entries ≡ some e
    → later - now < lim.idle_timeout
    → let m' = (get_or_create lim uid c now (mark_hangup uid hung m)).0 in
      (e' : Entry) × (lookup uid m'.entries ≡ some e')
      × (e'.hung_up_at ≡ none)
      × ((k : Key) → get_field k e'.user_config ≡ get_field k c)
      × (e'.user_config.user_id ≡ e.user_config.user_id)
      × (is_expired lim later e' ≡ false)
callback_survives lim uid c hung now later m e l t = (
  resume now (with_config c e),
  lookup-get_or_create lim uid c now (mark_hangup uid hung m) (hang_up hung e)
        (lookup-mark_hangup uid hung m e l)
      ∙ ap some (hang_up-reconnect c hung now e),
  refl,
  get_field-with_config c e,
  refl,
  ground arith,
)
