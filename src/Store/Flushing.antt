-- ===== src/Store/Flushing.antt =====
-- What the flush loop of the file-backed store puts in the file, over every order of events.
use go_discord_caller.Store.RoundTrip.{Restored, load_data-save_data}
use go_discord_caller.Store.Load.{load_data}
use go_discord_caller.Base.{
  Bool-cases, Option-cases, nat_eq, string_eq, pair_eq, nat_zero, bool_zero, list_zero, string_zero,
  lookup, All, ◌≡◌, refl, sym, ap, subst, ◌∙◌, ◌⊎◌, inl, inr, Bool, true, false, some, List, [],
  ◌∷◌, arith,
}
use go_discord_caller.Store.{InMemoryStore, new_in_memory_store, unique_ally_code}
use go_discord_caller.Store.Save.{
  YamlData, save_channels, save_roles, save_codes, save_locales, save_disabled, guild_set,
  save_data,
}
use go_discord_caller.Store.Yaml.{
  YamlStore, mark_dirty, yaml_get_or_create_ally_code, Flusher, flush, on_dirty, on_timer, on_done,
}
use go_discord_caller.Store.Calls.{
  Call, binds_channel, unbinds_channel, binds_role, unbinds_role, wants_code, binds_locale,
  unbinds_locale, sets_speaker, call, calls, new_yaml_store, IsProper, calls-IsSaved,
}

-- A call on the store, the loop receiving the signal, its timer firing, and Close; a save of the
-- last two says whether it worked.
pub data Event : Type 0 where
  mutates : Call → Event
  signals : Event
  fires closes : Bool → Event

unfoldable pub event : Flusher → Event → Flusher
unfolding call on_dirty on_timer on_done
event f (mutates c) = record f { store = call f.store c }
event f signals = on_dirty f
event f (fires works) = on_timer works f
event f (closes works) = on_done works f

unfoldable pub events : Flusher → List Event → Flusher
unfolding event
events f [] = f
events f (e ∷ es) = events (event f e) es

-- The calls among the events.
unfoldable pub mutations : List Event → List Call
mutations [] = []
mutations (mutates c ∷ es) = c ∷ mutations es
mutations (signals ∷ es) = mutations es
mutations (fires works ∷ es) = mutations es
mutations (closes works ∷ es) = mutations es

-- No save fails, and the store is not closed.
abbrev pub IsSmooth : Event → Type 0
IsSmooth (fires works) = works ≡ true
IsSmooth (closes works) = ⊥
IsSmooth e = Unit

unfoldable pub open_flusher : Flusher
unfolding new_yaml_store new_in_memory_store save_data
open_flusher = record { store = new_yaml_store; armed = false; stopped = false; file = some [] }

-- A change that the file does not have is signalled or timed.
record Pending (f : Flusher) : Type 0 where
  running : f.stopped ≡ false
  waits : (f.store.dirty ≡ true) ⊎ (f.armed ≡ true) ⊎ (f.file ≡ some (save_data f.store.maps))

call_dirty : (s : YamlStore) (c : Call) → (call s c ≡ s) ⊎ ((call s c).dirty ≡ true)
unfolding call mark_dirty yaml_get_or_create_ally_code
call_dirty s (binds_channel g u c) = inr refl
call_dirty s (unbinds_channel g u) = inr refl
call_dirty s (binds_role g t r) = inr refl
call_dirty s (unbinds_role g t) = inr refl
call_dirty s (wants_code draws g) = elim (Option-cases (lookup g s.maps.relay_codes)) [
  | inr (code, e) ↦ inl (rw (e, call, yaml_get_or_create_ally_code) refl)
  | inl n ↦ elim (Option-cases (unique_ally_code draws s.maps.relay_codes)) [
    | inl m ↦ inl (rw (n, call, yaml_get_or_create_ally_code, m) refl)
    | inr (code, e) ↦ inr (rw (n, call, yaml_get_or_create_ally_code, e) refl)
  ]
]
call_dirty s (binds_locale g l) = inr refl
call_dirty s (unbinds_locale g) = inr refl
call_dirty s (sets_speaker g u b) = inr refl

on_dirty_fires :
    (f : Flusher)
    → f.store.dirty ≡ true
    → f.stopped ≡ false
    → on_dirty f ≡ record f { store = record f.store { dirty = false }; armed = true }
unfolding on_dirty
on_dirty_fires f d r = ground (arith, d, r)

on_dirty_idle : (f : Flusher) → f.store.dirty ≡ false → on_dirty f ≡ f
unfolding on_dirty
on_dirty_idle f d = ground (arith, d)

on_timer_fires :
    (f : Flusher)
    → f.armed ≡ true
    → f.stopped ≡ false
    → on_timer true f ≡ record f { armed = false; file = some (save_data f.store.maps) }
unfolding on_timer flush
on_timer_fires f a r = ground (arith, a, r)

on_timer_idle : (f : Flusher) (works : Bool) → f.armed ≡ false → on_timer works f ≡ f
unfolding on_timer
on_timer_idle f works a = ground (arith, a)

event-Pending : (f : Flusher) (e : Event) → IsSmooth e → Pending f → Pending (event f e)
unfolding event
event-Pending f (mutates c) p k = record {
  running = k.running;
  waits = elim (call_dirty f.store c) [
    | inl e ↦
        subst (λ s. (s.dirty ≡ true) ⊎ (f.armed ≡ true) ⊎ (f.file ≡ some (save_data s.maps)))
          (sym e) k.waits
    | inr d ↦ inl d
  ];
}
event-Pending f signals p k = elim (Bool-cases f.store.dirty) [
  | inl d ↦
      subst Pending (sym (on_dirty_fires f d k.running))
        (record { running = k.running; waits = inr (inl refl) })
  | inr d ↦ subst Pending (sym (on_dirty_idle f d)) k
]
event-Pending f (fires works) p k = elim (Bool-cases f.armed) [
  | inl a ↦
      subst (λ w. Pending (on_timer w f)) (sym p)
        (subst Pending (sym (on_timer_fires f a k.running))
          (record { running = k.running; waits = inr (inr refl) }))
  | inr a ↦ subst Pending (sym (on_timer_idle f works a)) k
]
event-Pending f (closes works) p k = absurd p

events-Pending :
    (f : Flusher) (es : List Event) → All IsSmooth es → Pending f → Pending (events f es)
unfolding events
events-Pending f [] p k = k
events-Pending f (e ∷ es) p k = events-Pending (event f e) es p.1 (event-Pending f e p.0 k)

-- The signal has no part in what a call does to the maps.
call_maps :
    (m : InMemoryStore) (b d : Bool) (c : Call)
    → (call (record { maps = m; dirty = b }) c).maps
      ≡ (call (record { maps = m; dirty = d }) c).maps
unfolding call mark_dirty yaml_get_or_create_ally_code
call_maps m b d (binds_channel g u c) = refl
call_maps m b d (unbinds_channel g u) = refl
call_maps m b d (binds_role g t r) = refl
call_maps m b d (unbinds_role g t) = refl
call_maps m b d (wants_code draws g) = elim (Option-cases (lookup g m.relay_codes)) [
  | inr (code, e) ↦ rw (e, call, yaml_get_or_create_ally_code) refl
  | inl n ↦ elim (Option-cases (unique_ally_code draws m.relay_codes)) [
    | inl k ↦ rw (n, call, yaml_get_or_create_ally_code, k) refl
    | inr (code, e) ↦ rw (n, call, yaml_get_or_create_ally_code, e) refl
  ]
]
call_maps m b d (binds_locale g l) = refl
call_maps m b d (unbinds_locale g) = refl
call_maps m b d (sets_speaker g u a) = refl

calls_maps :
    (s t : YamlStore) (cs : List Call) → s.maps ≡ t.maps → (calls s cs).maps ≡ (calls t cs).maps
unfolding calls
calls_maps s t [] e = e
calls_maps s t (c ∷ cs) e = calls_maps (call s c) (call t c) cs (
    ap (λ m. (call (record { maps = m; dirty = s.dirty }) c).maps) e
    ∙ call_maps t.maps s.dirty t.dirty c)

on_dirty_maps : (f : Flusher) → (on_dirty f).store.maps ≡ f.store.maps
unfolding on_dirty
on_dirty_maps f = ground arith

on_timer_maps : (f : Flusher) (works : Bool) → (on_timer works f).store.maps ≡ f.store.maps
unfolding on_timer flush
on_timer_maps f works = ground arith

on_done_maps : (f : Flusher) (works : Bool) → (on_done works f).store.maps ≡ f.store.maps
unfolding on_done flush
on_done_maps f works = ground arith

events_maps :
    (f : Flusher) (es : List Event) → (events f es).store.maps ≡ (calls f.store (mutations es)).maps
unfolding events event mutations calls
events_maps f [] = refl
events_maps f (mutates c ∷ es) = events_maps (event f (mutates c)) es
events_maps f (signals ∷ es) =
    events_maps (on_dirty f) es ∙ calls_maps _ f.store (mutations es) (on_dirty_maps f)
events_maps f (fires works ∷ es) =
    events_maps (on_timer works f) es ∙ calls_maps _ f.store (mutations es) (on_timer_maps f works)
events_maps f (closes works ∷ es) =
    events_maps (on_done works f) es ∙ calls_maps _ f.store (mutations es) (on_done_maps f works)

open_flusher-Pending : Pending open_flusher
unfolding open_flusher new_yaml_store new_in_memory_store save_data guild_set save_channels
    save_roles save_codes save_locales save_disabled
open_flusher-Pending = record { running = refl; waits = inr (inr refl) }

-- A pending change reaches the file once the loop has read the signal and its timer has fired.
settle :
    (f : Flusher) → Pending f → (on_timer true (on_dirty f)).file ≡ some (save_data f.store.maps)
settle f k = elim (Bool-cases f.store.dirty) [
  | inl d ↦
      subst (λ x. (on_timer true x).file ≡ some (save_data f.store.maps))
        (sym (on_dirty_fires f d k.running)) (ap (λ x. x.file) (on_timer_fires _ refl k.running))
  | inr d ↦
      subst (λ x. (on_timer true x).file ≡ some (save_data f.store.maps)) (sym (on_dirty_idle f d))
        (elim (Bool-cases f.armed) [
          | inl a ↦ ap (λ x. x.file) (on_timer_fires f a k.running)
          | inr a ↦ ap (λ x. x.file) (on_timer_idle f true a) ∙ elim k.waits [
            | inl e ↦ absurd (ground (arith, d, e))
            | inr w ↦ elim w [ inl e ↦ absurd (ground (arith, a, e)) | inr e ↦ e ]
          ]
        ])
]

-- While the store is open and its saves work, one more signal and one more firing of the timer
-- bring every change that was made to the file, in whatever order signals and firings came before.
pub events-settle :
    (es : List Event)
    → All IsSmooth es
    → (on_timer true (on_dirty (events open_flusher es))).file
      ≡ some (save_data (calls new_yaml_store (mutations es)).maps)
unfolding open_flusher
events-settle es p =
    settle (events open_flusher es) (events-Pending open_flusher es p open_flusher-Pending)
    ∙ ap (λ m. some (save_data m)) (events_maps open_flusher es)

-- Close, when its save works, leaves in the file of a store that was open, whatever became of the
-- saves before, data that a new store loads to answer every query as after all the calls.
pub events-closes-Restored :
    (es : List Event)
    → All IsProper (mutations es)
    → (events open_flusher es).stopped ≡ false
    → (gs : YamlData) × ((on_done true (events open_flusher es)).file ≡ some gs)
      × Restored (calls new_yaml_store (mutations es)).maps (load_data gs new_in_memory_store)
unfolding on_done flush open_flusher
events-closes-Restored es p r =
    let f = events open_flusher es in
    let s = (calls new_yaml_store (mutations es)).maps in
    (
      save_data s,
      rw (r, on_done) (ap (λ m. some (save_data m)) (events_maps open_flusher es)),
      load_data-save_data s (calls-IsSaved (mutations es) p),
    )
