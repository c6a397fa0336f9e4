-- ===== src/Registry/Hooks/Effects.antt =====
-- What subscribing a lifecycle hook and ending the subscription do to the callbacks (src/ashiato.cpp).
use ashiato.Base.{
  ℕ, ◌≡◌, refl, sym, ap, ◌∙◌, Bool, true, false, ◌&&◌, ◌==◌, length-push_back, if◌then◌else◌, List,
  [], some, none, Bool-cases, inl, inr, ==_iff, ==_self, length, push_back, arith,
}
use ashiato.Base.Maps.{find, assign, erase, find-assign, find-erase}
use mathlib.Core.Path.{subst}
use ashiato.Registry.Catalog.{same_flag}
use ashiato.Registry.Hooks.{
  Hooks, HookEntry, HookList, empty, entries, list_of, with_entries, without_id, keep_entries,
  subscribe_callback, unsubscribe_component_lifecycle_hook, callbacks, callbacks_of,
}
use ashiato.Registry.Hooks.Lists.{
  all_below, without_id-pushed, callbacks-pushed, entries-with, with_entries-back,
  with_entries-other, no_entries,
}

same_flag-eq : (b k : Bool) → same_flag b k ≡ true → b ≡ k
same_flag-eq true true h = refl
same_flag-eq false false h = refl
same_flag-eq true false h = cc
same_flag-eq false true h = cc

module _ {C : Type 0} where
  -- The list of a component after a subscription.
  abbrev pub subscribed : ℕ → Bool → C → Hooks C → HookList C
  subscribed c b callback h =
      with_entries b
        (push_back (entries b (list_of (find c h.hooks)))
          (record { id = h.next_id; callback = callback }))
        (list_of (find c h.hooks))

  find-subscribed :
      (c : ℕ) (b : Bool) (callback : C) (h : Hooks C) (d : ℕ)
      → find d (subscribe_callback c b callback h).1.hooks
        ≡ (if c == d then some (subscribed c b callback h) else find d h.hooks)
  unfolding subscribe_callback
  find-subscribed c b callback h d = find-assign c d (subscribed c b callback h) h.hooks

  subscribed-here :
      (c : ℕ) (b : Bool) (callback : C) (h : Hooks C)
      → find c (subscribe_callback c b callback h).1.hooks ≡ some (subscribed c b callback h)
  subscribed-here c b callback h = find-subscribed c b callback h c ∙ simp (==_self c) refl

  -- A subscription adds the callback at the end of its list,
  subscribe-callbacks :
      (c : ℕ) (b : Bool) (callback : C) (h : Hooks C)
      → callbacks_of (subscribe_callback c b callback h).1 b c
        ≡ push_back (callbacks_of h b c) callback
  unfolding callbacks_of
  subscribe-callbacks c b callback h =
      ap (λ x. callbacks (entries b (list_of x))) (subscribed-here c b callback h)
      ∙ ap callbacks (entries-with b _ (list_of (find c h.hooks)))
      ∙ callbacks-pushed (entries b (list_of (find c h.hooks)))
          (record { id = h.next_id; callback = callback })

  -- and changes no other list.
  subscribe-others :
      (c : ℕ) (b : Bool) (callback : C) (h : Hooks C) (d : ℕ) (k : Bool)
      → (c == d && same_flag b k) ≡ false
      → callbacks_of (subscribe_callback c b callback h).1 k d ≡ callbacks_of h k d
  unfolding callbacks_of
  subscribe-others c b callback h d k apart = elim (Bool-cases (c == d)) [
    | inr other ↦
        ap (λ x. callbacks (entries k (list_of x))) {y = find d h.hooks}
          (find-subscribed c b callback h d ∙ simp other refl)
    | inl here ↦
        let flags : same_flag b k ≡ false = ground arith in
        subst
          (λ x.
            callbacks (entries k (list_of (find x (subscribe_callback c b callback h).1.hooks)))
            ≡ callbacks (entries k (list_of (find x h.hooks))))
          ((==_iff c d).0 here)
          (ap (λ x. callbacks (entries k (list_of x))) (subscribed-here c b callback h)
            ∙ ap callbacks (with_entries-other b k _ (list_of (find c h.hooks)) flags))
  ]

  keep-others :
      (c : ℕ) (b : Bool) (xs : List (HookEntry C)) (list : HookList C) (h : Hooks C) (d : ℕ)
      → (c == d) ≡ false
      → find d (keep_entries c b xs list h).hooks ≡ find d h.hooks
  unfolding keep_entries
  keep-others c b xs list h d other =
      elim (Bool-cases
        (empty (with_entries b xs list).add && empty (with_entries b xs list).remove)) [
          | inl none_left ↦ simp none_left (find-erase c d h.hooks ∙ simp other refl)
          | inr some_left ↦
              simp some_left (find-assign c d (with_entries b xs list) h.hooks ∙ simp other refl)
        ]

  keep-here :
      (c : ℕ) (b : Bool) (xs : List (HookEntry C)) (list : HookList C) (h : Hooks C) (k : Bool)
      → callbacks_of (keep_entries c b xs list h) k c
        ≡ callbacks (entries k (with_entries b xs list))
  unfolding callbacks_of keep_entries
  keep-here c b xs list h k =
      elim (Bool-cases
        (empty (with_entries b xs list).add && empty (with_entries b xs list).remove)) [
          | inl none_left ↦
              let gone : find c (erase c h.hooks) ≡ none =
                find-erase c c h.hooks ∙ simp (==_self c) refl in
              simp (none_left, gone)
                (no_entries (record { add = []; remove = [] }) k refl
                  ∙ sym (no_entries (with_entries b xs list) k none_left))
          | inr some_left ↦
              let there : find c (assign c (with_entries b xs list) h.hooks)
                  ≡ some (with_entries b xs list) =
                find-assign c c (with_entries b xs list) h.hooks ∙ simp (==_self c) refl in
              simp (some_left, there) refl
        ]

  pub unsubscribe-at :
      (component : ℕ) (add_hook : Bool) (id : ℕ) (h : Hooks C) (list : HookList C)
      (kept : List (HookEntry C))
      → find component h.hooks ≡ some list
      → without_id id (entries add_hook list) ≡ kept
      → (length kept == length (entries add_hook list)) ≡ false
      → unsubscribe_component_lifecycle_hook
          (record { component = component; add_hook = add_hook; id = id })
          h
        ≡ keep_entries component add_hook kept list h
  unfolding unsubscribe_component_lifecycle_hook
  unsubscribe-at component add_hook id h list kept there left less =
      rw (there, unsubscribe_component_lifecycle_hook) (simp (left, less) refl)

  -- Ending the new subscription takes its entry out of the list.
  unsubscribe-subscribed :
      (c : ℕ) (b : Bool) (callback : C) (h : Hooks C)
      → all_below h.next_id (entries b (list_of (find c h.hooks))) ≡ true
      → unsubscribe_component_lifecycle_hook
          (subscribe_callback c b callback h).0
          (subscribe_callback c b callback h).1
        ≡ keep_entries c b
            (entries b (list_of (find c h.hooks)))
            (subscribed c b callback h)
            (subscribe_callback c b callback h).1
  unfolding subscribe_callback
  unsubscribe-subscribed c b callback h fresh =
      unsubscribe-at c b h.next_id (subscribe_callback c b callback h).1 (subscribed c b callback h)
        (entries b (list_of (find c h.hooks))) (subscribed-here c b callback h)
        (ap (without_id h.next_id) (entries-with b _ (list_of (find c h.hooks)))
          ∙ without_id-pushed h.next_id (entries b (list_of (find c h.hooks))) callback fresh)
        (ap (λ x. length (entries b (list_of (find c h.hooks))) == length x)
            (entries-with b _ (list_of (find c h.hooks)))
          ∙ ground (
            arith,
            length-push_back (entries b (list_of (find c h.hooks)))
                (record { id = h.next_id; callback = callback }),
          ))

  -- Ending the subscription that was made last brings every list back.
  pub unsubscribe-callbacks :
      (c : ℕ) (b : Bool) (callback : C) (h : Hooks C) (d : ℕ) (k : Bool)
      → all_below h.next_id (entries b (list_of (find c h.hooks))) ≡ true
      → callbacks_of
          (unsubscribe_component_lifecycle_hook
            (subscribe_callback c b callback h).0
            (subscribe_callback c b callback h).1)
          k
          d
        ≡ callbacks_of h k d
  unfolding callbacks_of
  unsubscribe-callbacks c b callback h d k fresh =
      ap (λ x. callbacks_of x k d) (unsubscribe-subscribed c b callback h fresh)
      ∙ elim (Bool-cases (c == d)) [
        | inr other ↦
            ap (λ x. callbacks (entries k (list_of x))) {y = find d h.hooks}
              (keep-others c b (entries b (list_of (find c h.hooks))) (subscribed c b callback h)
                  (subscribe_callback c b callback h).1 d other
                ∙ find-subscribed c b callback h d
                ∙ simp other refl)
        | inl here ↦
            subst
              (λ x.
                callbacks_of
                  (keep_entries c b (entries b (list_of (find c h.hooks)))
                    (subscribed c b callback h) (subscribe_callback c b callback h).1)
                  k x
                ≡ callbacks_of h k x)
              ((==_iff c d).0 here)
              (keep-here c b (entries b (list_of (find c h.hooks))) (subscribed c b callback h)
                  (subscribe_callback c b callback h).1 k
                ∙ ap (λ x. callbacks (entries k x))
                    (with_entries-back b _ (list_of (find c h.hooks))))
      ]

  pub subscribe-flagged :
      (c : ℕ) (b : Bool) (callback : C) (h : Hooks C) (d : ℕ) (k : Bool)
      → callbacks_of (subscribe_callback c b callback h).1 k d ≡ (
          if c == d && same_flag b k
          then push_back (callbacks_of h k d) callback
          else callbacks_of h k d)
  subscribe-flagged c b callback h d k = elim (Bool-cases (c == d && same_flag b k)) [
    | inr apart ↦ simp apart (subscribe-others c b callback h d k apart)
    | inl same ↦ simp same (
        subst
          (λ x.
            callbacks_of (subscribe_callback c b callback h).1 x d
            ≡ push_back (callbacks_of h x d) callback)
          (same_flag-eq b k (ground arith))
          (subst
            (λ x.
              callbacks_of (subscribe_callback c b callback h).1 b x
              ≡ push_back (callbacks_of h b x) callback)
            ((==_iff c d).0 (ground arith)) (subscribe-callbacks c b callback h)))
  ]
