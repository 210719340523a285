-- ===== src/Manager/Capacity.antt =====
-- How many runtimes live at once, and that the table is a dict of its users' own entries.
use runtime_assistant_agent.Base.{
  ℕ, ◌≤◌, String, Bool, ◌≡◌, refl, Option, none, some, List, [], ◌∷◌, arith, eq_iff, leb, length,
  Bool-cases, inl, inr,
}
use runtime_assistant_agent.Base.Dict.{
  lookup, insert, remove, lookup-insert, lookup-remove, length-insert, length-remove-le, IsDict,
  insert-IsDict, remove-IsDict,
}
use runtime_assistant_agent.UserConfig.{UserConfig}
use runtime_assistant_agent.Manager.{
  Entry, Limits, Manager, Event, connects, hangs_up, touches, configures, wakes, evicts, init,
  destroy, evict_first, connect_entry, inject_entry, step, run, reconnect, hang_up, touch,
  ConfigKey, destroy_entry, new_entry, update_entry, set_key,
}

pub record IsValid (lim : Limits) (m : Manager) : Type 0 where
  pub capacity : length m.entries ≤ lim.max_instances
  pub is_dict : IsDict m.entries
  pub owned : (uid : String) (e : Entry) → lookup uid m.entries ≡ some e → e.user_id ≡ uid

module _ (lim : Limits) where
  init-IsValid : IsValid lim init
  unfolding init lookup
  init-IsValid = record { capacity = omega arith; is_dict = tt; owned = λ uid e h. cc }

  -- an entry that is replaced by one of the same user
  replace-IsValid :
      (uid : String) (e e' : Entry) (m : Manager)
      → lookup uid m.entries ≡ some e
      → e'.user_id ≡ e.user_id
      → IsValid lim m
      → IsValid lim (record m { entries = insert uid e' m.entries })
  replace-IsValid uid e e' m l same h = record {
    capacity = rw length-insert (ground (arith, h.capacity));
    is_dict = insert-IsDict uid e' m.entries h.is_dict;
    owned = λ j x p.
        ground (arith, lookup-insert uid j e' m.entries, eq_iff uid j, h.owned j x, h.owned uid e);
  }

  remove-IsValid :
      (uid : String) (m : Manager)
      → IsValid lim m
      → IsValid lim (record m { entries = remove uid m.entries })
  remove-IsValid uid m h = record {
    capacity = omega (arith, length-remove-le uid m.entries, h.capacity);
    is_dict = remove-IsDict uid m.entries h.is_dict;
    owned = λ j x p. ground (arith, lookup-remove uid j m.entries, h.owned j x);
  }

  -- only the table of entries is looked at
  same-IsValid : (m m' : Manager) → m'.entries ≡ m.entries → IsValid lim m → IsValid lim m'
  same-IsValid m m' e h = record {
    capacity = rw e h.capacity;
    is_dict = rw e h.is_dict;
    owned = rw e h.owned;
  }

  connect-IsValid :
      (uid : String) (c : UserConfig) (now : ℕ) (o : Option Entry) (m : Manager)
      → lookup uid m.entries ≡ o
      → IsValid lim m
      → IsValid lim (connect_entry lim uid c now o m).0
  connect-IsValid uid c now none m l h =
      elim (Bool-cases (leb lim.max_instances (length m.entries))) [
        | inl full ↦ rw full h
        | inr room ↦ rw room (record {
          capacity = rw (length-insert, l) (ground arith);
          is_dict = insert-IsDict uid (new_entry uid c now) m.entries h.is_dict;
          owned = λ j x p. ground (
            arith,
            lookup-insert uid j (new_entry uid c now) m.entries,
            eq_iff uid j,
            h.owned j x,
          );
        })
      ]
  connect-IsValid uid c now (some e) m l h =
      replace-IsValid uid e (reconnect now c e) m l (ground arith) h

  update-IsValid :
      (f : Entry → Entry) (uid : String) (o : Option Entry) (m : Manager)
      → ((e : Entry) → (f e).user_id ≡ e.user_id)
      → lookup uid m.entries ≡ o
      → IsValid lim m
      → IsValid lim (update_entry f uid o m)
  update-IsValid f uid none m same l h = h
  update-IsValid f uid (some e) m same l h = replace-IsValid uid e (f e) m l (same e) h

  inject-IsValid :
      (uid : String) (key : ConfigKey) (value : String) (written : Bool) (o : Option Entry)
      (m : Manager)
      → lookup uid m.entries ≡ o
      → IsValid lim m
      → IsValid lim (inject_entry uid key value written o m).0
  inject-IsValid uid key value written none m l h =
      same-IsValid m (inject_entry uid key value written none m).0 (ground arith) h
  inject-IsValid uid key value written (some e) m l h =
      let g =
        replace-IsValid uid e (record e { user_config = set_key key value e.user_config }) m l refl
          h in
      record { capacity = g.capacity; is_dict = g.is_dict; owned = g.owned }

  destroy-IsValid :
      (uid : String) (written : Bool) (o : Option Entry) (m : Manager)
      → IsValid lim m
      → IsValid lim (destroy_entry uid written o m)
  destroy-IsValid uid written none m h = h
  destroy-IsValid uid written (some e) m h =
      let g = remove-IsValid uid m h in
      record { capacity = g.capacity; is_dict = g.is_dict; owned = g.owned }

  evict-IsValid :
      (us : List String) (written : Bool) (m : Manager)
      → IsValid lim m
      → IsValid lim (evict_first us written m)
  unfolding destroy
  evict-IsValid [] written m h = h
  evict-IsValid (uid ∷ rest) written m h =
      destroy-IsValid uid written (lookup uid m.entries) (record m { evicting = rest })
        (record { capacity = h.capacity; is_dict = h.is_dict; owned = h.owned })

  step-IsValid : (m : Manager) (e : Event) → IsValid lim m → IsValid lim (step lim m e)
  unfolding step
  step-IsValid m (connects uid c now) h = connect-IsValid uid c now (lookup uid m.entries) m refl h
  step-IsValid m (hangs_up uid now) h =
      update-IsValid (hang_up now) uid (lookup uid m.entries) m (λ e. refl) refl h
  step-IsValid m (touches uid now) h =
      update-IsValid (touch now) uid (lookup uid m.entries) m (λ e. refl) refl h
  step-IsValid m (configures uid key value written) h =
      inject-IsValid uid key value written (lookup uid m.entries) m refl h
  step-IsValid m (wakes now) h = record {
    capacity = h.capacity;
    is_dict = h.is_dict;
    owned = h.owned;
  }
  step-IsValid m (evicts written) h = evict-IsValid m.evicting written m h

  pub run-IsValid : (es : List Event) (m : Manager) → IsValid lim m → IsValid lim (run lim m es)
  unfolding run
  run-IsValid [] m h = h
  run-IsValid (e ∷ es) m h = run-IsValid es (step lim m e) (step-IsValid m e h)

-- After any schedule of connections, hang-ups, frames, configuration changes, scans and evictions
-- there are at most `max_instances` runtimes, no user has two, and each stands under its own user.
pub runtimes_stay_within_capacity : (lim : Limits) (es : List Event) → IsValid lim (run lim init es)
runtimes_stay_within_capacity lim es = run-IsValid lim es init (init-IsValid lim)
