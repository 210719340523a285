-- ===== src/Manager/Eviction.antt =====
-- The reaper: which users a scan picks, and what happens to them.
use runtime_assistant_agent.Base.{
  ℕ, String, Bool, false, ◌≡◌, refl, ◌∙◌, Option, none, some, List, [], ◌∷◌, ◌++◌, arith, ◌==◌,
  eq_iff, eq_refl, if◌then◌else◌, contains,
}
use runtime_assistant_agent.Base.Dict.{Dict, lookup, insert, lookup-insert, lookup-remove, IsDict}
use runtime_assistant_agent.UserConfig.{UserConfig}
use runtime_assistant_agent.Manager.{
  Entry, Limits, Manager, is_expired, expired_users, evict_next, get_or_create, reconnect, resumed,
  step, wakes,
}

abbrev pub expired_entry : Limits → ℕ → Option Entry → Bool
expired_entry lim now none = false
expired_entry lim now (some e) = is_expired lim now e

contains-expired_users :
    (lim : Limits) (now : ℕ) (d : Dict Entry) (uid : String)
    → IsDict d
    → contains (expired_users lim now d) uid ≡ expired_entry lim now (lookup uid d)
unfolding expired_users lookup
contains-expired_users lim now [] uid h = refl
contains-expired_users lim now ((j, e) ∷ d) uid h =
    ground (arith, contains-expired_users lim now d uid h.1, eq_iff j uid)

-- A scan picks exactly the users with an expired entry: one that was hung up for the grace time and
-- saw no frame for as long, or one that was not hung up and saw no frame for the idle time. It changes
-- no entry.
pub scan_picks_expired :
    (lim : Limits) (now : ℕ) (m : Manager) (uid : String)
    → IsDict m.entries
    → (contains (step lim m (wakes now)).evicting uid
        ≡ expired_entry lim now (lookup uid m.entries))
      × ((step lim m (wakes now)).entries ≡ m.entries)
unfolding step
scan_picks_expired lim now m uid h = (contains-expired_users lim now m.entries uid h, refl)

-- Evicting a user who has an entry removes that entry and no other, stops its runtime, and leaves its
-- configuration on the disk if the write succeeds; the rest of the scan's list is still to come.
pub evict_next_removes :
    (m : Manager) (uid : String) (rest : List String) (e : Entry) (written : Bool) (j : String)
    → m.evicting ≡ uid ∷ rest
    → lookup uid m.entries ≡ some e
    → let m' = evict_next written m in
      (lookup j m'.entries ≡ (if uid == j then none else lookup j m.entries))
      × (m'.stopped ≡ m.stopped ++ uid ∷ [])
      × (lookup e.user_config.user_id m'.disk
          ≡ (if written then some e.user_config else lookup e.user_config.user_id m.disk))
      × (m'.evicting ≡ rest)
unfolding evict_next
evict_next_removes m uid rest e written j p l = ground (
  arith,
  lookup-remove uid j m.entries,
  eq_refl e.user_config.user_id,
  lookup-insert e.user_config.user_id e.user_config.user_id e.user_config m.disk,
)

get_or_create-resumed :
    (lim : Limits) (m : Manager) (uid : String) (e : Entry) (c : UserConfig) (now at : ℕ)
    → lookup uid m.entries ≡ some e
    → e.hung_up_at ≡ some at
    → get_or_create lim uid c now m
      ≡ (record m { entries = insert uid (reconnect now c e) m.entries }, resumed)
unfolding get_or_create
get_or_create-resumed lim m uid e c now at l u = rw l (simp u)

-- A user who calls back between a scan and the eviction is told that the runtime was resumed, and
-- loses it all the same: the eviction does not look again.
pub resumed_user_is_evicted :
    (lim : Limits) (m : Manager) (uid : String) (rest : List String) (e : Entry) (c : UserConfig)
    (now at : ℕ) (written : Bool)
    → m.evicting ≡ uid ∷ rest
    → lookup uid m.entries ≡ some e
    → e.hung_up_at ≡ some at
    → let r = get_or_create lim uid c now m in
      (r.1 ≡ resumed)
      × (lookup uid r.0.entries ≡ some (reconnect now c e))
      × (lookup uid (evict_next written r.0).entries ≡ none)
      × ((evict_next written r.0).stopped ≡ m.stopped ++ uid ∷ [])
resumed_user_is_evicted lim m uid rest e c now at written p l u =
    let m' : Manager = record m { entries = insert uid (reconnect now c e) m.entries } in
    let there : lookup uid m'.entries ≡ some (reconnect now c e) = rw (lookup-insert, eq_refl) in
    let gone = evict_next_removes m' uid rest (reconnect now c e) written uid p there in
    rw (get_or_create-resumed lim m uid e c now at l u) (refl, there, gone.0 ∙ rw eq_refl, gone.1)
