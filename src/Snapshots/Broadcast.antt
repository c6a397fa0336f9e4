-- ===== src/Snapshots/Broadcast.antt =====
-- `RegistryDirtyFrameBroadcaster` and its subscriptions (src/snapshot.cpp). A listener may subscribe,
-- end subscriptions and broadcast again while it is called: a broadcast is its beginning, what the
-- listeners do, and its end.
pub mod Entries
pub mod Silence
pub mod Walk
use ashiato.Base.{
  ℕ, ◌+◌, ◌-◌, ◌%◌, ◌^◌, Bool, true, false, not, ◌==◌, if◌then◌else◌, List, [], ◌∷◌, ◌++◌, Option,
  some, none, push_back,
}

pub record Entry (L : Type 0) : Type 0 where
  pub id : ℕ
  pub listener : Option L

pub record State (L : Type 0) : Type 0 where
  pub next_id : ℕ
  pub consumers : List (Entry L)
  pub pending_consumers : List (Entry L)
  pub broadcast_depth : ℕ

module _ {L : Type 0} where
  abbrev pub no_consumers : State L
  no_consumers = record { next_id = 1; consumers = []; pending_consumers = []; broadcast_depth = 0 }

  -- The identifier of the subscription, and the state.
  unfoldable pub subscribe : L → State L → ℕ × State L
  subscribe listener s =
      let entry : Entry L = record { id = s.next_id; listener = some listener } in
      (
        s.next_id,
        if s.broadcast_depth == 0
            then record s {
              next_id = (s.next_id + 1) % 2 ^ 64;
              consumers = push_back s.consumers entry;
            }
            else record s {
              next_id = (s.next_id + 1) % 2 ^ 64;
              pending_consumers = push_back s.pending_consumers entry;
            },
      )

  -- The loop over the entries, which ends at the first with the identifier.
  unfoldable pub silence : ℕ → List (Entry L) → List (Entry L)
  silence id [] = []
  silence id (entry ∷ rest) =
      let others = silence id rest in
      if entry.id == id then record { id = entry.id; listener = none } ∷ rest else entry ∷ others

  -- An identifier of 0 is that of no subscription.
  unfoldable pub reset : ℕ → State L → State L
  reset id s = if id == 0 then s else record s {
    consumers = silence id s.consumers;
    pending_consumers = silence id s.pending_consumers;
  }

  -- `listener != nullptr`
  unfoldable pub heard : Option L → Bool
  heard none = false
  heard (some listener) = true

  -- `std::remove_if` on null listeners
  unfoldable pub remove_null_listeners : List (Entry L) → List (Entry L)
  remove_null_listeners [] = []
  remove_null_listeners (entry ∷ rest) =
      let kept = remove_null_listeners rest in if heard entry.listener then entry ∷ kept else kept

  unfoldable pub remove_unsubscribed : State L → State L
  remove_unsubscribed s = record s {
    consumers = remove_null_listeners s.consumers;
    pending_consumers = remove_null_listeners s.pending_consumers;
  }

  unfoldable pub begin_broadcast : State L → State L
  begin_broadcast s = record s { broadcast_depth = s.broadcast_depth + 1 }

  unfoldable pub finish_broadcast : State L → State L
  finish_broadcast s =
      let shallower = record s { broadcast_depth = s.broadcast_depth - 1 } in
      if not (s.broadcast_depth - 1 == 0)
      then shallower
      else let kept = remove_unsubscribed shallower in
        record kept { consumers = kept.consumers ++ kept.pending_consumers; pending_consumers = [] }

-- What happens to the state, in the order in which it happens.
pub data Event (L : Type 0) : Type 0 where
  subscribed : L → Event L
  unsubscribed : ℕ → Event L
  begun : Event L
  finished : Event L

module _ {L : Type 0} where
  unfoldable pub happen : Event L → State L → State L
  happen (subscribed listener) s = (subscribe listener s).1
  happen (unsubscribed id) s = reset id s
  happen begun s = begin_broadcast s
  happen finished s = finish_broadcast s

  unfoldable pub history : List (Event L) → State L → State L
  history [] s = s
  history (event ∷ rest) s = history rest (happen event s)
