-- ===== src/Snapshots/Broadcast/Silence.antt =====
-- Which listeners a broadcast of src/snapshot.cpp can call.
use ashiato.Base.{
  ℕ, ◌+◌, ◌-◌, ◌%◌, ◌^◌, ◌<◌, ◌≤◌, ◌≡◌, refl, false, ◌==◌, ltb, if◌then◌else◌, List, [], ◌∷◌, some,
  Bool-cases, inl, inr, length, arith,
}
use ashiato.Snapshots.Broadcast.{
  Entry, State, no_consumers, subscribe, reset, remove_null_listeners, remove_unsubscribed,
  begin_broadcast, finish_broadcast, Event, subscribed, unsubscribed, begun, finished, happen,
  history,
}
use ashiato.Snapshots.Broadcast.Entries.{
  listening, count, count-append, count-silence, count-remove, listening-append, listening-silence,
  listening-silenced, listening-remove,
}

module _ {L : Type 0} where
  -- An identifier that was given stands in one entry at most, and no other does.
  abbrev IsOnce : State L → Type 0
  IsOnce s =
      (id : ℕ)
      → count id s.consumers + count id s.pending_consumers ≤ (if ltb id s.next_id then 1 else 0)

  happen-IsOnce :
      (event : Event L) (s : State L)
      → s.next_id + 1 < 2 ^ 64
      → IsOnce s
      → IsOnce (happen event s)
        × (s.next_id ≤ (happen event s).next_id)
        × ((happen event s).next_id ≤ s.next_id + 1)
  unfolding happen subscribe reset begin_broadcast finish_broadcast remove_unsubscribed count
  happen-IsOnce (subscribed listener) s small once =
      let entry : Entry L = record { id = s.next_id; listener = some listener } in
      let next : (s.next_id + 1) % 2 ^ 64 ≡ s.next_id + 1 = omega arith in
      elim (Bool-cases (s.broadcast_depth == 0)) [
        | inl outside ↦
            simp (outside, next)
              (
                λ id. ground (arith, once id, count-append id s.consumers (entry ∷ [])),
                omega arith,
                omega arith,
              )
        | inr inside ↦
            simp (inside, next)
              (
                λ id. ground (arith, once id, count-append id s.pending_consumers (entry ∷ [])),
                omega arith,
                omega arith,
              )
      ]
  happen-IsOnce (unsubscribed id) s small once = elim (Bool-cases (id == 0)) [
    | inl nobody ↦ simp nobody (once, omega arith, omega arith)
    | inr somebody ↦ simp somebody (
      λ j.
          ground
            (arith, once j, count-silence j id s.consumers, count-silence j id s.pending_consumers),
      omega arith,
      omega arith,
    )
  ]
  happen-IsOnce begun s small once = (once, omega arith, omega arith)
  happen-IsOnce finished s small once = elim (Bool-cases (s.broadcast_depth - 1 == 0)) [
    | inr deeper ↦ simp deeper (once, omega arith, omega arith)
    | inl last ↦ simp last (
      λ j. ground (
        arith,
        once j,
        count-remove j s.consumers,
        count-remove j s.pending_consumers,
        count-append j (remove_null_listeners s.consumers)
            (remove_null_listeners s.pending_consumers),
      ),
      omega arith,
      omega arith,
    )
  ]

  -- No entry with the identifier has a listener, and the identifier was given before.
  pub record IsSilent (id : ℕ) (s : State L) : Type 0 where
    pub consumers : listening id s.consumers ≡ false
    pub pending : listening id s.pending_consumers ≡ false
    pub given : id < s.next_id

  happen-IsSilent :
      (event : Event L) (id : ℕ) (s : State L)
      → s.next_id + 1 < 2 ^ 64
      → IsSilent id s
      → IsSilent id (happen event s)
  unfolding happen subscribe reset begin_broadcast finish_broadcast remove_unsubscribed listening
  happen-IsSilent (subscribed listener) id s small q =
      let entry : Entry L = record { id = s.next_id; listener = some listener } in
      let next : (s.next_id + 1) % 2 ^ 64 ≡ s.next_id + 1 = omega arith in
      elim (Bool-cases (s.broadcast_depth == 0)) [
        | inl outside ↦
            simp (outside, next)
              (record {
                consumers =
                    ground
                      (arith, q.consumers, q.given, listening-append id s.consumers (entry ∷ []));
                pending = q.pending;
                given = omega (arith, q.given);
              })
        | inr inside ↦
            simp (inside, next)
              (record {
                consumers = q.consumers;
                pending = ground (
                  arith,
                  q.pending,
                  q.given,
                  listening-append id s.pending_consumers (entry ∷ []),
                );
                given = omega (arith, q.given);
              })
      ]
  happen-IsSilent (unsubscribed j) id s small q = elim (Bool-cases (j == 0)) [
    | inl nobody ↦ simp nobody q
    | inr somebody ↦ simp somebody (record {
      consumers = listening-silence id j s.consumers q.consumers;
      pending = listening-silence id j s.pending_consumers q.pending;
      given = q.given;
    })
  ]
  happen-IsSilent begun id s small q = record {
    consumers = q.consumers;
    pending = q.pending;
    given = q.given;
  }
  happen-IsSilent finished id s small q = elim (Bool-cases (s.broadcast_depth - 1 == 0)) [
    | inr deeper ↦
        simp deeper (record { consumers = q.consumers; pending = q.pending; given = q.given })
    | inl last ↦ simp last (record {
      consumers = ground (
        arith,
        q.consumers,
        q.pending,
        listening-remove id s.consumers,
        listening-remove id s.pending_consumers,
        listening-append id (remove_null_listeners s.consumers)
            (remove_null_listeners s.pending_consumers),
      );
      pending = refl;
      given = q.given;
    })
  ]

  history-IsOnce :
      (events : List (Event L)) (s : State L)
      → s.next_id + length events < 2 ^ 64
      → IsOnce s
      → IsOnce (history events s) × ((history events s).next_id ≤ s.next_id + length events)
  unfolding history
  history-IsOnce [] s small once = (once, omega arith)
  history-IsOnce (event ∷ rest) s small once =
      let (next, up, few) = happen-IsOnce event s (omega arith) once in
      let (end, steps) = history-IsOnce rest (happen event s) (omega arith) next in
      (end, omega arith)

  happen-next : (event : Event L) (s : State L) → (happen event s).next_id ≤ s.next_id + 1
  unfolding happen subscribe reset begin_broadcast finish_broadcast remove_unsubscribed
  happen-next (subscribed listener) s = elim (Bool-cases (s.broadcast_depth == 0)) [
    | inl outside ↦ simp outside (omega arith)
    | inr inside ↦ simp inside (omega arith)
  ]
  happen-next (unsubscribed id) s = elim (Bool-cases (id == 0)) [
    | inl nobody ↦ simp nobody (omega arith)
    | inr somebody ↦ simp somebody (omega arith)
  ]
  happen-next begun s = omega arith
  happen-next finished s = elim (Bool-cases (s.broadcast_depth - 1 == 0)) [
    | inl last ↦ simp last (omega arith)
    | inr deeper ↦ simp deeper (omega arith)
  ]

  history-IsSilent :
      (events : List (Event L)) (id : ℕ) (s : State L)
      → s.next_id + length events < 2 ^ 64
      → IsSilent id s
      → IsSilent id (history events s)
  unfolding history
  history-IsSilent [] id s small q = q
  history-IsSilent (event ∷ rest) id s small q =
      history-IsSilent rest id (happen event s) (omega (arith, happen-next event s))
        (happen-IsSilent event id s (omega arith) q)

  reset-IsSilent :
      (id : ℕ) (s : State L)
      → 0 < id
      → id < s.next_id
      → IsOnce s
      → IsSilent id (reset id s) × ((reset id s).next_id ≡ s.next_id)
  unfolding reset
  reset-IsSilent id s pos given once =
      let somebody : (id == 0) ≡ false = ground arith in
      let one : count id s.consumers + count id s.pending_consumers ≤ 1 = ground (arith, once id) in
      simp somebody (
        record {
          consumers = listening-silenced id s.consumers (omega (arith, one));
          pending = listening-silenced id s.pending_consumers (omega (arith, one));
          given = given;
        },
        refl,
      )

  -- A listener whose subscription was ended is not called any more: over every history before and after
  -- the end of the subscription, within broadcasts too, in which the 64-bit identifiers do not wrap, no
  -- entry with its identifier has a listener.
  pub reset-listening :
      (before after : List (Event L)) (id : ℕ)
      → length before + length after + 1 < 2 ^ 64
      → 0 < id
      → id < (history before no_consumers).next_id
      → (listening id (history after (reset id (history before no_consumers))).consumers ≡ false)
        × (listening id (history after (reset id (history before no_consumers))).pending_consumers
            ≡ false)
  reset-listening before after id short pos given =
      let (once, steps) =
        history-IsOnce before no_consumers (omega arith) (λ j. unfold count in ground arith) in
      let (silent, same) = reset-IsSilent id (history before no_consumers) pos given once in
      let q : IsSilent id (history after (reset id (history before no_consumers))) =
        history-IsSilent after id (reset id (history before no_consumers))
          (omega (arith, same, steps)) silent in
      (q.consumers, q.pending)
