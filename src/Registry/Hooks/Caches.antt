-- ===== src/Registry/Hooks/Caches.antt =====
-- The caches of `component_lifecycle_hooks_match` (src/ashiato.cpp) against the test without a cache.
use ashiato.Base.{
  ℕ, ◌+◌, ◌^◌, ◌<◌, ◌≤◌, ◌≡◌, refl, sym, ap, ◌∙◌, Bool, ◌==◌, List, [], ◌∷◌, Option-cases,
  Bool-cases, inl, inr, ◌⊎◌, ==_iff, length, arith,
}
use ashiato.Base.Maps.{find}
use ashiato.Registry.Hooks.{
  Hooks, Subscription, MatchCache, next_u64, new, new_cache, entries, without_id, keep_entries,
  subscribe_callback, unsubscribe_component_lifecycle_hook, erase_hooks, any_hooked,
  component_lifecycle_hooks_match,
}

-- What may happen to the hooks between two questions, and the question.
pub data Event (C : Type 0) : Type 0 where
  subscribe : ℕ → Bool → C → Event C
  unsubscribe : Subscription → Event C
  unregister : ℕ → Event C
  ask : Event C

module _ {C : Type 0} where
  unfoldable pub happen : List ℕ → Event C → Hooks C × MatchCache → Hooks C × MatchCache
  happen components (subscribe component add_hook callback) (h, cache) =
      ((subscribe_callback component add_hook callback h).1, cache)
  happen components (unsubscribe subscription) (h, cache) =
      (unsubscribe_component_lifecycle_hook subscription h, cache)
  happen components (unregister component) (h, cache) = (erase_hooks component h, cache)
  happen components ask (h, cache) = (h, (component_lifecycle_hooks_match h components cache).1)

  unfoldable pub history : List ℕ → List (Event C) → Hooks C × MatchCache → Hooks C × MatchCache
  history components [] state = state
  history components (event ∷ rest) state = history components rest (happen components event state)

  -- The hooks stay as they are, or their revision is a new one.
  pub Renewed : Hooks C → Hooks C → Type 0
  Renewed h h' = (h' ≡ h) ⊎ (h'.revision ≡ next_u64 h.revision)

  unsubscribe-Renewed :
      (subscription : Subscription) (h : Hooks C)
      → Renewed h (unsubscribe_component_lifecycle_hook subscription h)
  unfolding unsubscribe_component_lifecycle_hook keep_entries Renewed
  unsubscribe-Renewed subscription h = elim (Option-cases (find subscription.component h.hooks)) [
    | inl missing ↦ inl (rw (missing, unsubscribe_component_lifecycle_hook) refl)
    | inr (list, there) ↦
        elim (Bool-cases (
          length (without_id subscription.id (entries subscription.add_hook list))
          == length (entries subscription.add_hook list))) [
            | inl same ↦ inl (rw (there, unsubscribe_component_lifecycle_hook, same) refl)
            | inr fewer ↦ inr (rw (there, unsubscribe_component_lifecycle_hook, fewer) refl)
          ]
  ]

  erase-Renewed : (component : ℕ) (h : Hooks C) → Renewed h (erase_hooks component h)
  unfolding erase_hooks Renewed
  erase-Renewed component h = elim (Option-cases (find component h.hooks)) [
    | inl missing ↦ inl (rw (missing, erase_hooks) refl)
    | inr (list, there) ↦ inr (rw (there, erase_hooks) refl)
  ]

  -- A cache is right about the revision that it names, which is not a later one.
  pub record IsCurrent (components : List ℕ) (h : Hooks C) (cache : MatchCache) : Type 0 where
    pub past : cache.revision ≤ h.revision
    pub right : cache.revision ≡ h.revision → cache.matches ≡ any_hooked h components

  Renewed-IsCurrent :
      (components : List ℕ) (h h' : Hooks C) (cache : MatchCache)
      → h.revision + 1 < 2 ^ 64
      → Renewed h h'
      → IsCurrent components h cache
      → IsCurrent components h' cache × (h'.revision ≤ h.revision + 1)
  unfolding Renewed next_u64
  Renewed-IsCurrent components h h' cache small (inl same) c = (
    record {
      past = omega (arith, ap (λ x. x.revision) same, c.past);
      right = λ e.
          c.right (e ∙ ap (λ x. x.revision) same) ∙ ap (λ x. any_hooked x components) (sym same);
    },
    omega (arith, ap (λ x. x.revision) same),
  )
  Renewed-IsCurrent components h h' cache small (inr new_one) c = (
    record { past = omega (arith, c.past); right = λ e. absurd (omega (arith, c.past)) },
    omega arith,
  )

  -- The answer is that without the cache, and the cache is right afterwards.
  match-IsCurrent :
      (components : List ℕ) (h : Hooks C) (cache : MatchCache)
      → IsCurrent components h cache
      → ((component_lifecycle_hooks_match h components cache).0 ≡ any_hooked h components)
        × IsCurrent components h (component_lifecycle_hooks_match h components cache).1
  unfolding component_lifecycle_hooks_match
  match-IsCurrent components h cache c = elim (Bool-cases (cache.revision == h.revision)) [
    | inl same ↦ rw same (c.right ((==_iff cache.revision h.revision).0 same), c)
    | inr old ↦ rw old (refl, record { past = omega arith; right = λ e. refl })
  ]

  happen-IsCurrent :
      (components : List ℕ) (event : Event C) (h : Hooks C) (cache : MatchCache)
      → h.revision + 1 < 2 ^ 64
      → IsCurrent components h cache
      → IsCurrent components
          (happen components event (h, cache)).0
          (happen components event (h, cache)).1
        × ((happen components event (h, cache)).0.revision ≤ h.revision + 1)
  unfolding happen subscribe_callback Renewed
  happen-IsCurrent components (subscribe component add_hook callback) h cache small c =
      Renewed-IsCurrent components h (subscribe_callback component add_hook callback h).1 cache
        small (inr refl) c
  happen-IsCurrent components (unsubscribe subscription) h cache small c =
      Renewed-IsCurrent components h (unsubscribe_component_lifecycle_hook subscription h) cache
        small (unsubscribe-Renewed subscription h) c
  happen-IsCurrent components (unregister component) h cache small c =
      Renewed-IsCurrent components h (erase_hooks component h) cache small
        (erase-Renewed component h) c
  happen-IsCurrent components ask h cache small c =
      ((match-IsCurrent components h cache c).1, omega arith)

  history-IsCurrent :
      (components : List ℕ) (events : List (Event C)) (h : Hooks C) (cache : MatchCache)
      → h.revision + length events < 2 ^ 64
      → IsCurrent components h cache
      → IsCurrent components
          (history components events (h, cache)).0
          (history components events (h, cache)).1
  unfolding history
  history-IsCurrent components [] h cache small c = c
  history-IsCurrent components (event ∷ rest) h cache small c =
      let (next, few) = happen-IsCurrent components event h cache (omega arith) c in
      history-IsCurrent components rest (happen components event (h, cache)).0
        (happen components event (h, cache)).1 (omega arith) next

  -- After every sequence of subscriptions, ends of subscriptions, destructions of components and
  -- questions that is short enough for the 64-bit revision not to wrap, the cached answer is whether
  -- any of the components has a hook.
  pub history-match :
      (components : List ℕ) (events : List (Event C))
      → length events + 1 < 2 ^ 64
      → (component_lifecycle_hooks_match
          (history components events (new, new_cache)).0
          components
          (history components events (new, new_cache)).1).0
        ≡ any_hooked (history components events (new, new_cache)).0 components
  history-match components events short =
      (match-IsCurrent components (history components events (new, new_cache)).0
        (history components events (new, new_cache)).1
        (history-IsCurrent components events new new_cache (omega arith)
          (record { past = omega arith; right = λ e. absurd (omega arith) }))).0
