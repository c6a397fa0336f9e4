-- ===== src/Tests/Callbacks.antt =====
-- The theorems on the lifecycle hooks at concrete inputs.
use ashiato.Base.{ℕ, ◌≡◌, true, Bool, ◌==◌, ◌&&◌, if◌then◌else◌, List, [], ◌∷◌, push_back, arith}
use ashiato.Registry.Catalog.{same_flag}
use ashiato.Registry.Hooks.{
  new, new_cache, any_hooked, component_lifecycle_hooks_match, callbacks_of, subscribe_callback,
  unsubscribe_component_lifecycle_hook,
}
use ashiato.Registry.Hooks.Caches.{
  Event, subscribe, unsubscribe, unregister, ask, history, history-match,
}
use ashiato.Registry.Hooks.Subscriptions.{history-unsubscribe}

-- Two callbacks on the component 3, a question, and the end of the first subscription.
abbrev some_events : List (Event ℕ)
some_events =
    subscribe 3 true 70
    ∷ ask
    ∷ subscribe 3 true 71
    ∷ unsubscribe (record { component = 3; add_hook = true; id = 1 })
    ∷ unregister 5
    ∷ ask
    ∷ []

history-match_example :
    (component_lifecycle_hooks_match
      (history (3 ∷ 4 ∷ []) some_events (new, new_cache)).0
      (3 ∷ 4 ∷ [])
      (history (3 ∷ 4 ∷ []) some_events (new, new_cache)).1).0
    ≡ any_hooked (history (3 ∷ 4 ∷ []) some_events (new, new_cache)).0 (3 ∷ 4 ∷ [])
history-match_example = history-match (3 ∷ 4 ∷ []) some_events (omega arith)

history-unsubscribe_example :
    ((d : ℕ) (k : Bool)
      → callbacks_of
          (subscribe_callback 3 true 72 (history [] some_events (new, new_cache)).0).1
          k
          d
        ≡ (if 3 == d && same_flag true k
            then push_back (callbacks_of (history [] some_events (new, new_cache)).0 k d) 72
            else callbacks_of (history [] some_events (new, new_cache)).0 k d))
    × ((d : ℕ) (k : Bool)
        → callbacks_of
            (unsubscribe_component_lifecycle_hook
              (subscribe_callback 3 true 72 (history [] some_events (new, new_cache)).0).0
              (subscribe_callback 3 true 72 (history [] some_events (new, new_cache)).0).1)
            k
            d
          ≡ callbacks_of (history [] some_events (new, new_cache)).0 k d)
history-unsubscribe_example = history-unsubscribe [] some_events 3 true 72 (omega arith)
