-- ===== src/Registry/Hooks/Subscriptions.antt =====
-- The lifecycle hooks over every history of subscriptions (src/ashiato.cpp): identifiers are used once.
use ashiato.Base.{
  ℕ, ◌+◌, ◌%◌, ◌^◌, ◌<◌, ◌≤◌, ◌≡◌, refl, sym, Bool, true, ◌&&◌, ◌==◌, if◌then◌else◌, List, [], ◌∷◌,
  some, none, Option-cases, Bool-cases, inl, inr, length, push_back, arith,
}
use ashiato.Base.Maps.{find, find-assign, find-erase}
use mathlib.Core.Path.{subst}
use ashiato.Registry.Catalog.{same_flag}
use ashiato.Registry.Hooks.{
  Hooks, HookEntry, HookList, MatchCache, next_u64, new, new_cache, empty, entries, list_of,
  with_entries, without_id, keep_entries, subscribe_callback, unsubscribe_component_lifecycle_hook,
  erase_hooks, callbacks_of,
}
use ashiato.Registry.Hooks.Caches.{Event, subscribe, unsubscribe, unregister, ask, happen, history}
use ashiato.Registry.Hooks.Lists.{
  all_below, all_below_mono, all_below-pushed, all_below-without_id, all_below-with, all_below-none,
}
use ashiato.Registry.Hooks.Effects.{
  subscribed, unsubscribe-at, unsubscribe-callbacks, subscribe-flagged,
}

module _ {C : Type 0} where
  -- The identifiers that were given are below the next one.
  abbrev IsFresh : Hooks C → Type 0
  IsFresh h = (c : ℕ) (b : Bool) → all_below h.next_id (entries b (list_of (find c h.hooks))) ≡ true

  subscribe-IsFresh :
      (c : ℕ) (b : Bool) (callback : C) (h : Hooks C)
      → h.next_id + 1 < 2 ^ 64
      → IsFresh h
      → IsFresh (subscribe_callback c b callback h).1
        × ((subscribe_callback c b callback h).1.next_id ≡ h.next_id + 1)
  unfolding subscribe_callback next_u64
  subscribe-IsFresh c b callback h small f =
      let next : (h.next_id + 1) % 2 ^ 64 ≡ h.next_id + 1 = omega arith in
      (
        λ d k. elim (Bool-cases (c == d)) [
          | inr other ↦
              simp (next, find-assign c d (subscribed c b callback h) h.hooks, other)
                (all_below_mono h.next_id (h.next_id + 1) _ (omega arith) (f d k))
          | inl here ↦
              simp (next, find-assign c d (subscribed c b callback h) h.hooks, here)
                (all_below-with (h.next_id + 1) b k _ (list_of (find c h.hooks))
                  (all_below-pushed h.next_id _ callback (f c b))
                  (all_below_mono h.next_id (h.next_id + 1) _ (omega arith) (f c k)))
        ],
        next,
      )

  keep-IsFresh :
      (c : ℕ) (b : Bool) (kept : List (HookEntry C)) (list : HookList C) (h : Hooks C)
      → find c h.hooks ≡ some list
      → all_below h.next_id kept ≡ true
      → IsFresh h
      → IsFresh (keep_entries c b kept list h)
  unfolding keep_entries
  keep-IsFresh c b kept list h there below f d k =
      elim (Bool-cases
        (empty (with_entries b kept list).add && empty (with_entries b kept list).remove)) [
          | inl none_left ↦
              simp (none_left, find-erase c d h.hooks)
                (elim (Bool-cases (c == d)) [
                  | inl here ↦ simp here (all_below-none h.next_id (list_of none) k refl)
                  | inr other ↦ simp other (f d k)
                ])
          | inr some_left ↦
              simp (some_left, find-assign c d (with_entries b kept list) h.hooks)
                (elim (Bool-cases (c == d)) [
                  | inl here ↦ simp here (
                      all_below-with h.next_id b k kept list below (
                        subst (λ x. all_below h.next_id (entries k (list_of x)) ≡ true) there
                          (f c k)))
                  | inr other ↦ simp other (f d k)
                ])
        ]

  unsubscribe-IsFresh :
      (component : ℕ) (add_hook : Bool) (id : ℕ) (h : Hooks C)
      → IsFresh h
      → IsFresh (
          unsubscribe_component_lifecycle_hook
            (record { component = component; add_hook = add_hook; id = id })
            h)
        × ((unsubscribe_component_lifecycle_hook
              (record { component = component; add_hook = add_hook; id = id })
              h).next_id
            ≡ h.next_id)
  unfolding unsubscribe_component_lifecycle_hook
  unsubscribe-IsFresh component add_hook id h f = elim (Option-cases (find component h.hooks)) [
    | inl missing ↦ rw (missing, unsubscribe_component_lifecycle_hook) (f, refl)
    | inr (list, there) ↦
        let old : all_below h.next_id (entries add_hook list) ≡ true =
          subst (λ x. all_below h.next_id (entries add_hook (list_of x)) ≡ true) there
            (f component add_hook) in
        elim (Bool-cases
          (length (without_id id (entries add_hook list)) == length (entries add_hook list))) [
            | inl same ↦ rw (there, unsubscribe_component_lifecycle_hook, same) (f, refl)
            | inr less ↦
                subst (λ x. IsFresh x × (x.next_id ≡ h.next_id))
                  (sym (unsubscribe-at component add_hook id h list _ there refl less))
                  (
                    keep-IsFresh component add_hook (without_id id (entries add_hook list)) list h
                        there (all_below-without_id h.next_id id (entries add_hook list) old) f,
                    unfold keep_entries in refl,
                  )
          ]
  ]

  erase-IsFresh :
      (c : ℕ) (h : Hooks C)
      → IsFresh h
      → IsFresh (erase_hooks c h) × ((erase_hooks c h).next_id ≡ h.next_id)
  unfolding erase_hooks
  erase-IsFresh c h f = elim (Option-cases (find c h.hooks)) [
    | inl missing ↦ rw (missing, erase_hooks) (f, refl)
    | inr (list, there) ↦
        rw (there, erase_hooks)
          (
            λ d k. simp (find-erase c d h.hooks) (elim (Bool-cases (c == d)) [
              | inl here ↦ simp here (all_below-none h.next_id (list_of none) k refl)
              | inr other ↦ simp other (f d k)
            ]),
            refl,
          )
  ]

  happen-IsFresh :
      (components : List ℕ) (event : Event C) (h : Hooks C) (cache : MatchCache)
      → h.next_id + 1 < 2 ^ 64
      → IsFresh h
      → IsFresh (happen components event (h, cache)).0
        × ((happen components event (h, cache)).0.next_id ≤ h.next_id + 1)
  unfolding happen
  happen-IsFresh components (subscribe c b callback) h cache small f =
      let (f', next) = subscribe-IsFresh c b callback h small f in (f', omega arith)
  happen-IsFresh components (unsubscribe s) h cache small f =
      let (f', next) = unsubscribe-IsFresh s.component s.add_hook s.id h f in (f', omega arith)
  happen-IsFresh components (unregister c) h cache small f =
      let (f', next) = erase-IsFresh c h f in (f', omega arith)
  happen-IsFresh components ask h cache small f = (f, omega arith)

  history-IsFresh :
      (components : List ℕ) (events : List (Event C)) (h : Hooks C) (cache : MatchCache)
      → h.next_id + length events < 2 ^ 64
      → IsFresh h
      → IsFresh (history components events (h, cache)).0
  unfolding history
  history-IsFresh components [] h cache small f = f
  history-IsFresh components (event ∷ rest) h cache small f =
      let (next, few) = happen-IsFresh components event h cache (omega arith) f in
      history-IsFresh components rest (happen components event (h, cache)).0
        (happen components event (h, cache)).1 (omega arith) next

  -- After every history of the hooks that is short enough for the 64-bit counters not to wrap: a new
  -- subscription puts its callback behind the others of its component and kind, and changes no other
  -- list of callbacks; ending it again brings every list back.
  pub history-unsubscribe :
      (components : List ℕ) (events : List (Event C)) (c : ℕ) (b : Bool) (callback : C)
      → length events + 1 < 2 ^ 64
      → ((d : ℕ) (k : Bool)
          → callbacks_of
              (subscribe_callback c b callback (history components events (new, new_cache)).0).1
              k
              d
            ≡ (if c == d && same_flag b k
                then push_back
                    (callbacks_of (history components events (new, new_cache)).0 k d)
                    callback
                else callbacks_of (history components events (new, new_cache)).0 k d))
        × ((d : ℕ) (k : Bool)
            → callbacks_of
                (unsubscribe_component_lifecycle_hook
                  (subscribe_callback c b callback (history components events (new, new_cache)).0).0
                  (subscribe_callback c b callback
                    (history components events (new, new_cache)).0).1)
                k
                d
              ≡ callbacks_of (history components events (new, new_cache)).0 k d)
  history-unsubscribe components events c b callback short =
      let h : Hooks C = (history components events (new, new_cache)).0 in
      let f : IsFresh h =
        history-IsFresh components events new new_cache (omega arith)
          (λ d k. all_below-none 1 (list_of none) k refl) in
      (subscribe-flagged c b callback h, λ d k. unsubscribe-callbacks c b callback h d k (f c b))
