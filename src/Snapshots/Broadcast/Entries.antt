-- ===== src/Snapshots/Broadcast/Entries.antt =====
-- The entries of a broadcaster (src/snapshot.cpp): how many have an identifier, and which listen.
use ashiato.Base.{
  ℕ, ◌+◌, ◌≤◌, ◌≡◌, refl, Bool, false, ◌==◌, ◌&&◌, ◌||◌, if◌then◌else◌, List, [], ◌∷◌, ◌++◌, arith,
}
use ashiato.Snapshots.Broadcast.{Entry, silence, heard, remove_null_listeners}

module _ {L : Type 0} where
  -- Does an entry with this identifier have a listener?
  unfoldable pub listening : ℕ → List (Entry L) → Bool
  listening id [] = false
  listening id (entry ∷ rest) = (entry.id == id && heard entry.listener) || listening id rest

  unfoldable pub count : ℕ → List (Entry L) → ℕ
  count id [] = 0
  count id (entry ∷ rest) =
      let others = count id rest in if entry.id == id then others + 1 else others

  pub count-append :
      (id : ℕ) (xs ys : List (Entry L)) → count id (xs ++ ys) ≡ count id xs + count id ys
  unfolding count
  count-append id [] ys = omega arith
  count-append id (x ∷ xs) ys = ground (arith, count-append id xs ys)

  pub count-silence : (id j : ℕ) (xs : List (Entry L)) → count id (silence j xs) ≡ count id xs
  unfolding count silence
  count-silence id j [] = refl
  count-silence id j (x ∷ xs) = ground (arith, count-silence id j xs)

  pub count-remove :
      (id : ℕ) (xs : List (Entry L)) → count id (remove_null_listeners xs) ≤ count id xs
  unfolding count remove_null_listeners
  count-remove id [] = omega arith
  count-remove id (x ∷ xs) = ground (arith, count-remove id xs)

  pub listening-append :
      (id : ℕ) (xs ys : List (Entry L))
      → listening id (xs ++ ys) ≡ (listening id xs || listening id ys)
  unfolding listening
  listening-append id [] ys = refl
  listening-append id (x ∷ xs) ys = ground (arith, listening-append id xs ys)

  listening-count : (id : ℕ) (xs : List (Entry L)) → count id xs ≡ 0 → listening id xs ≡ false
  unfolding count listening
  listening-count id [] h = refl
  listening-count id (x ∷ xs) h = ground (arith, listening-count id xs)

  pub listening-silence :
      (id j : ℕ) (xs : List (Entry L))
      → listening id xs ≡ false
      → listening id (silence j xs) ≡ false
  unfolding listening silence heard
  listening-silence id j [] h = refl
  listening-silence id j (x ∷ xs) h = ground (arith, listening-silence id j xs)

  pub listening-silenced :
      (id : ℕ) (xs : List (Entry L)) → count id xs ≤ 1 → listening id (silence id xs) ≡ false
  unfolding count listening silence heard
  listening-silenced id [] h = refl
  listening-silenced id (x ∷ xs) h = ground (arith, listening-silenced id xs, listening-count id xs)

  pub listening-remove :
      (id : ℕ) (xs : List (Entry L)) → listening id (remove_null_listeners xs) ≡ listening id xs
  unfolding listening remove_null_listeners
  listening-remove id [] = refl
  listening-remove id (x ∷ xs) = ground (arith, listening-remove id xs)
