-- ===== src/Snapshots/Broadcast/Walk.antt =====
-- What a broadcast of src/snapshot.cpp walks over.
use ashiato.Base.{
  sym, ap, ◌⊎◌, none, elem, ==_iff, ℕ, ◌+◌, ◌-◌, ◌%◌, ◌^◌, ◌<◌, ◌≡◌, refl, ◌∙◌, Bool, true, false,
  ◌==◌, ◌&&◌, leb, List, [], ◌∷◌, some, Bool-cases, inl, inr, push_back, arith,
}
use ashiato.Snapshots.Broadcast.{
  Entry, State, subscribe, silence, reset, begin_broadcast, finish_broadcast, Event, subscribed,
  unsubscribed, begun, finished, happen, history,
}

module _ {L : Type 0} where
  -- The entries `ys` are the entries `xs` in the same places: each has its identifier, and its listener,
  -- which only an entry with one of these identifiers may have lost.
  abbrev pub Kept : List ℕ → List (Entry L) → List (Entry L) → Type 0
  Kept ended [] [] = Unit {0}
  Kept ended (x ∷ xs) (y ∷ ys) =
      (y.id ≡ x.id)
      × ((y.listener ≡ x.listener) ⊎ ((elem x.id ended ≡ true) × (y.listener ≡ none)))
      × Kept ended xs ys
  Kept ended [] (y ∷ ys) = ⊥
  Kept ended (x ∷ xs) [] = ⊥

  Kept-refl : (ended : List ℕ) (xs : List (Entry L)) → Kept ended xs xs
  Kept-refl ended [] = tt
  Kept-refl ended (x ∷ xs) = (refl, inl refl, Kept-refl ended xs)

  kept-listener :
      (ended : List ℕ) (x y z : Entry L)
      → y.id ≡ x.id
      → (y.listener ≡ x.listener) ⊎ ((elem x.id ended ≡ true) × (y.listener ≡ none))
      → (z.listener ≡ y.listener) ⊎ ((elem y.id ended ≡ true) × (z.listener ≡ none))
      → (z.listener ≡ x.listener) ⊎ ((elem x.id ended ≡ true) × (z.listener ≡ none))
  kept-listener ended x y z e (inl p) (inl q) = inl (q ∙ p)
  kept-listener ended x y z e (inr (i, p)) (inl q) = inr (i, q ∙ p)
  kept-listener ended x y z e p (inr (i, q)) = inr (ap (λ id. elem id ended) (sym e) ∙ i, q)

  Kept-trans :
      (ended : List ℕ) (xs ys zs : List (Entry L))
      → Kept ended xs ys
      → Kept ended ys zs
      → Kept ended xs zs
  Kept-trans ended [] [] [] p q = tt
  Kept-trans ended (x ∷ xs) (y ∷ ys) (z ∷ zs) p q =
      (q.0 ∙ p.0, kept-listener ended x y z p.0 p.1 q.1, Kept-trans ended xs ys zs p.2 q.2)
  Kept-trans ended [] (y ∷ ys) zs p q = absurd p
  Kept-trans ended (x ∷ xs) [] zs p q = absurd p
  Kept-trans ended [] [] (z ∷ zs) p q = absurd q
  Kept-trans ended (x ∷ xs) (y ∷ ys) [] p q = absurd q

  Kept-silence :
      (ended : List ℕ) (id : ℕ) (xs : List (Entry L))
      → elem id ended ≡ true
      → Kept ended xs (silence id xs)
  unfolding silence
  Kept-silence ended id [] e = tt
  Kept-silence ended id (x ∷ xs) e = elim (Bool-cases (x.id == id)) [
    | inl here ↦
        simp here (
          refl,
          inr (ap (λ i. elem i ended) ((==_iff x.id id).0 here) ∙ e, refl),
          Kept-refl ended xs,
        )
    | inr other ↦ simp other (refl, inl refl, Kept-silence ended id xs e)
  ]

  -- The identifiers whose subscriptions the events end.
  abbrev pub ended_by : List (Event L) → List ℕ
  ended_by [] = []
  ended_by (subscribed listener ∷ rest) = ended_by rest
  ended_by (unsubscribed id ∷ rest) = id ∷ ended_by rest
  ended_by (begun ∷ rest) = ended_by rest
  ended_by (finished ∷ rest) = ended_by rest

  -- Does every prefix of the events stay in a broadcast, from this depth on?
  unfoldable pub stays : ℕ → List (Event L) → Bool
  stays depth [] = true
  stays depth (subscribed listener ∷ rest) = stays depth rest
  stays depth (unsubscribed id ∷ rest) = stays depth rest
  stays depth (begun ∷ rest) = stays (depth + 1) rest
  stays depth (finished ∷ rest) = let after = stays (depth - 1) rest in leb 2 depth && after

  -- The same, for any list of identifiers that has those that are ended.
  history-within :
      (ended : List ℕ) (events : List (Event L)) (s : State L)
      → ((id : ℕ) → elem id (ended_by events) ≡ true → elem id ended ≡ true)
      → 0 < s.broadcast_depth
      → stays s.broadcast_depth events ≡ true
      → Kept ended s.consumers (history events s).consumers
  unfolding history happen subscribe reset begin_broadcast finish_broadcast stays
  history-within ended [] s all deep h = Kept-refl ended s.consumers
  history-within ended (subscribed listener ∷ rest) s all deep h =
      let inside : (s.broadcast_depth == 0) ≡ false = ground arith in
      simp inside (
        history-within ended rest
          (record s {
            next_id = (s.next_id + 1) % 2 ^ 64;
            pending_consumers =
                push_back s.pending_consumers (record { id = s.next_id; listener = some listener });
          })
          all deep h)
  history-within ended (unsubscribed id ∷ rest) s all deep h = elim (Bool-cases (id == 0)) [
    | inl nobody ↦ simp nobody (history-within ended rest s (λ j e. all j (ground arith)) deep h)
    | inr somebody ↦ simp somebody (
        Kept-trans ended s.consumers (silence id s.consumers) _
          (Kept-silence ended id s.consumers (all id (ground arith)))
          (history-within ended rest
            (record s {
              consumers = silence id s.consumers;
              pending_consumers = silence id s.pending_consumers;
            })
            (λ j e. all j (ground arith)) deep h))
  ]
  history-within ended (begun ∷ rest) s all deep h =
      history-within ended rest (record s { broadcast_depth = s.broadcast_depth + 1 }) all
        (omega arith) h
  history-within ended (finished ∷ rest) s all deep h =
      let more : (s.broadcast_depth - 1 == 0) ≡ false = ground arith in
      simp more (
        history-within ended rest (record s { broadcast_depth = s.broadcast_depth - 1 }) all
          (ground arith) (ground arith))

  -- As long as a broadcast runs, whatever its listeners do, the consumers that it walks over stay in
  -- their places, each with its identifier and its listener; only an entry whose subscription is ended
  -- meanwhile may have lost its listener.
  pub history-Kept :
      (events : List (Event L)) (s : State L)
      → 0 < s.broadcast_depth
      → stays s.broadcast_depth events ≡ true
      → Kept (ended_by events) s.consumers (history events s).consumers
  history-Kept events s deep h = history-within (ended_by events) events s (λ id e. e) deep h
