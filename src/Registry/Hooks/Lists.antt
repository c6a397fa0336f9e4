-- ===== src/Registry/Hooks/Lists.antt =====
-- Lists of lifecycle hooks (src/ashiato.cpp): their identifiers and their callbacks.
use ashiato.Base.{
  ℕ, ◌+◌, ◌≤◌, ◌≡◌, refl, ap, Bool, true, false, ◌&&◌, ltb, List, [], ◌∷◌, push_back, arith,
}
use ashiato.Registry.Catalog.{same_flag}
use ashiato.Registry.Hooks.{
  HookEntry, HookList, empty, entries, with_entries, without_id, callbacks,
}

module _ {C : Type 0} where
  unfoldable pub all_below : ℕ → List (HookEntry C) → Bool
  all_below n [] = true
  all_below n (entry ∷ rest) = ltb entry.id n && all_below n rest

  without_id-below :
      (n : ℕ) (xs : List (HookEntry C)) → all_below n xs ≡ true → without_id n xs ≡ xs
  unfolding without_id all_below
  without_id-below n [] h = refl
  without_id-below n (x ∷ xs) h = ground (arith, without_id-below n xs)

  pub without_id-pushed :
      (n : ℕ) (xs : List (HookEntry C)) (callback : C)
      → all_below n xs ≡ true
      → without_id n (push_back xs (record { id = n; callback = callback })) ≡ xs
  unfolding without_id all_below
  without_id-pushed n [] callback h = ground arith
  without_id-pushed n (x ∷ xs) callback h = ground (arith, without_id-pushed n xs callback)

  pub callbacks-pushed :
      (xs : List (HookEntry C)) (x : HookEntry C)
      → callbacks (push_back xs x) ≡ push_back (callbacks xs) x.callback
  unfolding callbacks
  callbacks-pushed [] x = refl
  callbacks-pushed (y ∷ xs) x = ap (λ t. y.callback ∷ t) (callbacks-pushed xs x)

  no_callbacks : (xs : List (HookEntry C)) → empty xs ≡ true → callbacks xs ≡ []
  unfolding callbacks
  no_callbacks [] h = refl
  no_callbacks (x ∷ xs) h = absurd (ground arith)

  pub entries-with :
      (b : Bool) (xs : List (HookEntry C)) (list : HookList C)
      → entries b (with_entries b xs list) ≡ xs
  entries-with true xs list = refl
  entries-with false xs list = refl

  pub with_entries-back :
      (b : Bool) (xs : List (HookEntry C)) (list : HookList C)
      → with_entries b (entries b list) (with_entries b xs list) ≡ list
  with_entries-back true xs list = refl
  with_entries-back false xs list = refl

  pub with_entries-other :
      (b k : Bool) (xs : List (HookEntry C)) (list : HookList C)
      → same_flag b k ≡ false
      → entries k (with_entries b xs list) ≡ entries k list
  with_entries-other true false xs list h = refl
  with_entries-other false true xs list h = refl
  with_entries-other true true xs list h = cc
  with_entries-other false false xs list h = cc

  pub no_entries :
      (list : HookList C) (k : Bool)
      → (empty list.add && empty list.remove) ≡ true
      → callbacks (entries k list) ≡ []
  no_entries list true h = no_callbacks list.add (ground arith)
  no_entries list false h = no_callbacks list.remove (ground arith)

  pub all_below_mono :
      (n m : ℕ) (xs : List (HookEntry C)) → n ≤ m → all_below n xs ≡ true → all_below m xs ≡ true
  unfolding all_below
  all_below_mono n m [] le h = refl
  all_below_mono n m (x ∷ xs) le h = ground (arith, all_below_mono n m xs le)

  pub all_below-pushed :
      (n : ℕ) (xs : List (HookEntry C)) (callback : C)
      → all_below n xs ≡ true
      → all_below (n + 1) (push_back xs (record { id = n; callback = callback })) ≡ true
  unfolding all_below
  all_below-pushed n [] callback h = ground arith
  all_below-pushed n (x ∷ xs) callback h = ground (arith, all_below-pushed n xs callback)

  pub all_below-without_id :
      (n id : ℕ) (xs : List (HookEntry C))
      → all_below n xs ≡ true
      → all_below n (without_id id xs) ≡ true
  unfolding all_below without_id
  all_below-without_id n id [] h = refl
  all_below-without_id n id (x ∷ xs) h = ground (arith, all_below-without_id n id xs)

  pub all_below-with :
      (n : ℕ) (b k : Bool) (xs : List (HookEntry C)) (list : HookList C)
      → all_below n xs ≡ true
      → all_below n (entries k list) ≡ true
      → all_below n (entries k (with_entries b xs list)) ≡ true
  all_below-with n true true xs list h old = h
  all_below-with n true false xs list h old = old
  all_below-with n false true xs list h old = old
  all_below-with n false false xs list h old = h

  all_below-empty : (n : ℕ) (xs : List (HookEntry C)) → empty xs ≡ true → all_below n xs ≡ true
  unfolding all_below
  all_below-empty n [] h = refl
  all_below-empty n (x ∷ xs) h = absurd (ground arith)

  pub all_below-none :
      (n : ℕ) (list : HookList C) (k : Bool)
      → (empty list.add && empty list.remove) ≡ true
      → all_below n (entries k list) ≡ true
  all_below-none n list true h = all_below-empty n list.add (ground arith)
  all_below-none n list false h = all_below-empty n list.remove (ground arith)
