-- ===== src/Manager.antt =====
-- runTime/src/openclaw_gateway_runtime/gateway/runtime_manager.py: `RuntimeManager`. Time is a
-- number of milliseconds of the monotonic clock, handed to each operation. The disk of
-- user_config.py is a dict by user; whether a write of it succeeds is an argument. The reaper's list
-- of users to evict is part of the state, since `destroy` waits for the disk, so that other
-- operations run between two evictions of one scan.
pub mod Capacity
pub mod Eviction
pub mod Connection
pub mod Injection
mod Tests
use runtime_assistant_agent.Base.{
  ℕ, ◌-◌, String, Bool, true, false, ◌&&◌, Option, none, some, List, [], ◌∷◌, ◌++◌, ◌==◌,
  if◌then◌else◌, leb, is_some, get_or, length,
}
use runtime_assistant_agent.Base.Dict.{Dict, lookup, insert, remove}
use runtime_assistant_agent.UserConfig.{
  UserConfig, default_config, Key, language, user_info, agent_profile, tone, get_field, set_field,
}

-- `_RuntimeEntry`
pub record Entry : Type 0 where
  pub user_id : String
  pub user_config : UserConfig
  pub last_active : ℕ
  pub hung_up_at : Option ℕ

pub record Limits : Type 0 where
  pub max_instances : ℕ
  pub idle_timeout : ℕ
  pub hangup_grace : ℕ

pub record Manager : Type 0 where
  pub entries : Dict Entry
  pub reaper_running : Bool
  pub evicting : List String
  pub stopped : List String
  pub disk : Dict UserConfig

unfoldable pub init : Manager
init = record { entries = []; reaper_running = false; evicting = []; stopped = []; disk = [] }

abbrev pub touch : ℕ → Entry → Entry
touch now e = record e { last_active = now }

abbrev pub idle : ℕ → Entry → ℕ
idle now e = now - e.last_active

-- the test of the reaper for one entry
abbrev pub is_expired : Limits → ℕ → Entry → Bool
is_expired lim now e = elim e.hung_up_at [
  | some at ↦ leb lim.hangup_grace (now - at) && leb lim.hangup_grace (idle now e)
  | none ↦ leb lim.idle_timeout (idle now e)
]

expired_users : Limits → ℕ → Dict Entry → List String
expired_users lim now [] = []
expired_users lim now ((uid, e) ∷ rest) =
    let others = expired_users lim now rest in if is_expired lim now e then uid ∷ others else others

-- one wake-up of `_reaper_loop`, up to its evictions
pub scan : Limits → ℕ → Manager → Manager
unfolding expired_users
scan lim now m = record m { evicting = expired_users lim now m.entries }

-- `_save_sync`
pub save : Bool → UserConfig → Dict UserConfig → Dict UserConfig
save written c d = if written then insert c.user_id c d else d

abbrev destroy_entry : String → Bool → Option Entry → Manager → Manager
destroy_entry uid written none m = m
destroy_entry uid written (some e) m = record m {
  entries = remove uid m.entries;
  stopped = m.stopped ++ uid ∷ [];
  disk = save written e.user_config m.disk;
}

pub destroy : String → Bool → Manager → Manager
unfolding save
destroy uid written m = destroy_entry uid written (lookup uid m.entries) m

abbrev evict_first : List String → Bool → Manager → Manager
evict_first [] written m = m
evict_first (uid ∷ rest) written m = destroy uid written (record m { evicting = rest })

-- one round of the eviction loop
pub evict_next : Bool → Manager → Manager
unfolding destroy
evict_next written m = evict_first m.evicting written m

pub data Outcome : Type 0 where
  resumed reused created limit_reached : Outcome

-- the loop over the four fields in `get_or_create`
abbrev pub with_config : UserConfig → Entry → Entry
with_config c e =
    let set = λ (k : Key) (d : UserConfig). set_field k (get_field k c) d in
    record e {
      user_config = set tone (set agent_profile (set user_info (set language e.user_config)));
    }

abbrev resume : ℕ → Entry → Entry
resume now e = touch now (record e { hung_up_at = none })

-- an entry that is there
abbrev pub reconnect : ℕ → UserConfig → Entry → Entry
reconnect now c e = if is_some e.hung_up_at then resume now (with_config c e) else with_config c e

abbrev pub new_entry : String → UserConfig → ℕ → Entry
new_entry uid c now = record {
  user_id = uid;
  user_config = c;
  last_active = now;
  hung_up_at = none;
}

abbrev pub connect_entry :
    Limits → String → UserConfig → ℕ → Option Entry → Manager → Manager × Outcome
connect_entry lim uid c now (some e) m = (
  record m { entries = insert uid (reconnect now c e) m.entries },
  if is_some e.hung_up_at then resumed else reused,
)
connect_entry lim uid c now none m =
    if leb lim.max_instances (length m.entries) then (m, limit_reached) else (
      record m { entries = insert uid (new_entry uid c now) m.entries; reaper_running = true },
      created,
    )

pub get_or_create : Limits → String → UserConfig → ℕ → Manager → Manager × Outcome
get_or_create lim uid c now m = connect_entry lim uid c now (lookup uid m.entries) m

abbrev pub hang_up : ℕ → Entry → Entry
hang_up now e = record e { hung_up_at = elim e.hung_up_at [ none ↦ some now | some at ↦ some at ] }

abbrev update_entry : (Entry → Entry) → String → Option Entry → Manager → Manager
update_entry f uid none m = m
update_entry f uid (some e) m = record m { entries = insert uid (f e) m.entries }

pub mark_hangup : String → ℕ → Manager → Manager
mark_hangup uid now m = update_entry (hang_up now) uid (lookup uid m.entries) m

-- a frame through the user's endpoint
pub touch_endpoint : String → ℕ → Manager → Manager
touch_endpoint uid now m = update_entry (touch now) uid (lookup uid m.entries) m

-- The attributes that `setattr` with a key from outside can reach. `unread_key` is an attribute that
-- every configuration has and whose value is kept nowhere, as the time stamp, which a write sets anew;
-- `other_key` is one that it has not, which the file does not hold.
pub data ConfigKey : Type 0 where
  field : Key → ConfigKey
  user_id_key unread_key other_key : ConfigKey

abbrev pub set_key : ConfigKey → String → UserConfig → UserConfig
set_key (field k) v c = set_field k v c
set_key user_id_key v c = record c { user_id = v }
set_key unread_key v c = c
set_key other_key v c = c

-- `hasattr(cfg, key)`
abbrev known_key : ConfigKey → Bool
known_key (field k) = true
known_key user_id_key = true
known_key unread_key = true
known_key other_key = false

-- `load_user_config`: what is stored, under the asking user's id
abbrev pub load_user_config : String → Dict UserConfig → UserConfig
load_user_config uid d = record (get_or (lookup uid d) (default_config uid)) { user_id = uid }

abbrev pub inject_entry :
    String → ConfigKey → String → Bool → Option Entry → Manager → Manager × Bool
inject_entry uid key value written (some e) m =
    let e' = record e { user_config = set_key key value e.user_config } in
    (
      record m { entries = insert uid e' m.entries; disk = save written e'.user_config m.disk },
      true,
    )
inject_entry uid key value written none m =
    let c = set_key key value (load_user_config uid m.disk) in
    (if known_key key then record m { disk = save written c m.disk } else m, false)

pub inject_config : String → ConfigKey → String → Bool → Manager → Manager × Bool
unfolding save
inject_config uid key value written m = inject_entry uid key value written (lookup uid m.entries) m

pub data Event : Type 0 where
  connects : String → UserConfig → ℕ → Event
  hangs_up : String → ℕ → Event
  touches : String → ℕ → Event
  configures : String → ConfigKey → String → Bool → Event
  wakes : ℕ → Event
  evicts : Bool → Event

unfoldable pub step : Limits → Manager → Event → Manager
unfolding get_or_create mark_hangup touch_endpoint inject_config scan evict_next
step lim m (connects uid c now) = (get_or_create lim uid c now m).0
step lim m (hangs_up uid now) = mark_hangup uid now m
step lim m (touches uid now) = touch_endpoint uid now m
step lim m (configures uid key value written) = (inject_config uid key value written m).0
step lim m (wakes now) = scan lim now m
step lim m (evicts written) = evict_next written m

unfoldable pub run : Limits → Manager → List Event → Manager
run lim m [] = m
run lim m (e ∷ es) = run lim (step lim m e) es
