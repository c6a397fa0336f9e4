-- ===== src/Registry/Hooks.antt =====
-- The lifecycle hooks of src/ashiato.cpp: callbacks that are subscribed to the adding and the removing
-- of a component, and the caches of whether any of some components has one.
pub mod Caches
pub mod Effects
pub mod Lists
pub mod Subscriptions
use ashiato.Base.{
  ℕ, ◌+◌, ◌%◌, ◌^◌, Bool, true, false, not, ◌&&◌, ◌||◌, ◌==◌, if◌then◌else◌, List, [], ◌∷◌, Option,
  some, none, length, push_back, Result, ok, err, ◌>>=◌,
}
use ashiato.Base.Maps.{find, assign, erase}
use ashiato.EntityStore.{Entity, entity_index}
use ashiato.Registry.{Registry, require_component_record}

-- The callbacks are of a type `C`.
pub record HookEntry (C : Type 0) : Type 0 where
  pub id : ℕ
  pub callback : C

pub record HookList (C : Type 0) : Type 0 where
  pub add : List (HookEntry C)
  pub remove : List (HookEntry C)

pub record Hooks (C : Type 0) : Type 0 where
  pub hooks : List (ℕ × HookList C)
  pub next_id : ℕ
  pub revision : ℕ

-- What a subscription holds, to be able to end it.
pub record Subscription : Type 0 where
  pub component : ℕ
  pub add_hook : Bool
  pub id : ℕ

pub record MatchCache : Type 0 where
  pub revision : ℕ
  pub matches : Bool

-- `++` on 64 bits
unfoldable pub next_u64 : ℕ → ℕ
next_u64 n = (n + 1) % 2 ^ 64

abbrev pub new_cache : MatchCache
new_cache = record { revision = 0; matches = false }

abbrev pub empty {ℓ} : {A : Type ℓ} → List A → Bool
empty xs = length xs == 0

module _ {C : Type 0} where
  abbrev pub new : Hooks C
  new = record { hooks = []; next_id = 1; revision = 1 }

  -- `hooks[component]` makes an empty list where there is none.
  abbrev pub list_of : Option (HookList C) → HookList C
  list_of none = record { add = []; remove = [] }
  list_of (some list) = list

  abbrev pub entries : Bool → HookList C → List (HookEntry C)
  entries true list = list.add
  entries false list = list.remove

  abbrev pub with_entries : Bool → List (HookEntry C) → HookList C → HookList C
  with_entries true kept list = record { add = kept; remove = list.remove }
  with_entries false kept list = record { add = list.add; remove = kept }

  -- The subscription of a callback that is not null.
  unfoldable pub subscribe_callback : ℕ → Bool → C → Hooks C → Subscription × Hooks C
  subscribe_callback component add_hook callback h =
      let list = list_of (find component h.hooks) in
      (
        record { component = component; add_hook = add_hook; id = h.next_id },
        record {
          hooks =
              assign component
                (with_entries add_hook
                  (push_back (entries add_hook list)
                    (record { id = h.next_id; callback = callback }))
                  list)
                h.hooks;
          next_id = next_u64 h.next_id;
          revision = next_u64 h.revision;
        },
      )

  unfoldable pub subscribe_component_lifecycle_hook :
      {V : Type 0}
      → Registry V
      → Entity
      → Bool
      → Option C
      → Hooks C
      → Result (Option Subscription × Hooks C)
  subscribe_component_lifecycle_hook r component add_hook callback h =
      require_component_record r component >>= λ found. elim callback [
        | none ↦ ok (none, h)
        | some call ↦
            let (subscription, h') = subscribe_callback (entity_index component) add_hook call h in
            ok (some subscription, h')
      ]

  -- `std::remove_if` on the identifier
  unfoldable pub without_id : ℕ → List (HookEntry C) → List (HookEntry C)
  without_id id [] = []
  without_id id (entry ∷ rest) =
      let kept = without_id id rest in if entry.id == id then kept else entry ∷ kept

  -- The list of the component, with these entries left.
  unfoldable pub keep_entries : ℕ → Bool → List (HookEntry C) → HookList C → Hooks C → Hooks C
  keep_entries component add_hook kept list h =
      let list' = with_entries add_hook kept list in
      record h {
        hooks =
            if empty list'.add && empty list'.remove
            then erase component h.hooks
            else assign component list' h.hooks;
        revision = next_u64 h.revision;
      }

  unfoldable pub unsubscribe_component_lifecycle_hook : Subscription → Hooks C → Hooks C
  unsubscribe_component_lifecycle_hook subscription h = elim (find subscription.component h.hooks) [
    | none ↦ h
    | some list ↦
        let kept = without_id subscription.id (entries subscription.add_hook list) in
        if length kept == length (entries subscription.add_hook list)
        then h
        else keep_entries subscription.component subscription.add_hook kept list h
  ]

  -- What the destruction of a component's entity does to its hooks.
  unfoldable pub erase_hooks : ℕ → Hooks C → Hooks C
  erase_hooks component h = elim (find component h.hooks) [
    | none ↦ h
    | some list ↦ record h { hooks = erase component h.hooks; revision = next_u64 h.revision }
  ]

  unfoldable pub has_component_lifecycle_hooks : Hooks C → ℕ → Bool
  has_component_lifecycle_hooks h component = elim (find component h.hooks) [
    | none ↦ false
    | some list ↦ not (empty list.add) || not (empty list.remove)
  ]

  -- The loop over the components.
  unfoldable pub any_hooked : Hooks C → List ℕ → Bool
  any_hooked h [] = false
  any_hooked h (component ∷ rest) = has_component_lifecycle_hooks h component || any_hooked h rest

  unfoldable pub component_lifecycle_hooks_match : Hooks C → List ℕ → MatchCache → Bool × MatchCache
  component_lifecycle_hooks_match h components cache =
      if cache.revision == h.revision then (cache.matches, cache) else (
        any_hooked h components,
        record { revision = h.revision; matches = any_hooked h components },
      )

  unfoldable pub callbacks : List (HookEntry C) → List C
  callbacks [] = []
  callbacks (entry ∷ rest) = entry.callback ∷ callbacks rest

  -- The callbacks that a dispatch copies, which are none where no list is there.
  unfoldable pub callbacks_of : Hooks C → Bool → ℕ → List C
  callbacks_of h add_hook component =
      callbacks (entries add_hook (list_of (find component h.hooks)))

  -- The callbacks of the copy are called in turn, with the registry `r`, which they may change.
  unfoldable pub call_all : {R : Type 0} → (C → Entity → R → R) → List C → Entity → R → R
  call_all call [] entity r = r
  call_all call (callback ∷ rest) entity r = call_all call rest entity (call callback entity r)

  unfoldable pub dispatch_component_hooks :
      {R : Type 0} → (R → Hooks C) → (C → Entity → R → R) → Bool → Entity → Entity → R → R
  dispatch_component_hooks hooks_of call add_hook component entity r =
      call_all call (callbacks_of (hooks_of r) add_hook (entity_index component)) entity r
