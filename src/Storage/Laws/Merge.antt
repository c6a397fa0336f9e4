-- ===== src/Storage/Laws/Merge.antt =====
-- Writes whose dirty marks are deferred, and `Registry::merge_deferred_dirty_writes` of
-- src/jobs.cpp, which makes up for them.
use ashiato.Base.{
  ℕ, ◌≡◌, refl, ◌∙◌, sym, Bool, false, ◌==◌, arith, if◌then◌else◌, List, [], ◌∷◌, ◌++◌, push_back,
  get_or, some, none, Bool-cases, inl, inr, ==_self,
}
use mathlib.Core.List.{append_assoc, append-nil}
use ashiato.Storage.{Storage, sparse_at, contains}
use ashiato.Storage.Flags.{mark_dirty_dense, mark_dirty}
use ashiato.Storage.Deferred.{
  DeferredDirtyWrite, ThreadState, enter_scope, leave_scope, mark_dirty_or_defer, write,
}

module _ {V : Type 0} where
  -- The entries of the list that are for the storage of `component`.
  unfoldable pub merge_deferred_dirty_writes : ℕ → List DeferredDirtyWrite → Storage V → Storage V
  merge_deferred_dirty_writes component [] s = s
  merge_deferred_dirty_writes component (w ∷ ws) s =
      merge_deferred_dirty_writes component ws
        (if w.storage == component then mark_dirty w.index s else s)

  -- Writes to the indices, in order.
  pub write_all : ℕ → List ℕ → ThreadState → Storage V → ThreadState × Storage V
  write_all component [] t s = (t, s)
  write_all component (i ∷ is) t s =
      let (_, t', s') = write component i t s in write_all component is t' s'

  write_all-cons :
      (component i : ℕ) (is : List ℕ) (t : ThreadState) (s : Storage V)
      → write_all component (i ∷ is) t s
        ≡ write_all component is (write component i t s).1 (write component i t s).2
  unfolding write_all
  write_all-cons component i is t s = refl

  -- What a thread has deferred for the indices that the storage contains.
  deferred : ℕ → List ℕ → Storage V → List DeferredDirtyWrite
  deferred component [] s = []
  deferred component (i ∷ is) s =
      let rest = deferred component is s in
      if contains s i then record { storage = component; index = i } ∷ rest else rest

  contains-mark_dirty : (i : ℕ) (s : Storage V) → contains (mark_dirty i s) ≡ contains s
  unfolding mark_dirty mark_dirty_dense
  contains-mark_dirty i s = elim (Bool-cases (contains s i)) [
    | inr out ↦ simp out refl
    | inl there ↦ simp there (elim (Bool-cases (get_or s.dirty (sparse_at s i) 0 == 0)) [
      | inl clean ↦ simp clean (unfold contains in refl)
      | inr marked ↦ simp marked refl
    ])
  ]

  -- One write of a thread that defers, and of one that does not.
  write_deferring :
      (component i : ℕ) (ws : List DeferredDirtyWrite) (r : Bool) (s : Storage V)
      → let t : ThreadState = record { deferred_dirty_writes = some ws; defer_range_dirty = r } in
        ((write component i t s).1 ≡ (
          if contains s i
          then record {
            deferred_dirty_writes = some (push_back ws (record { storage = component; index = i }));
            defer_range_dirty = r;
          }
          else t))
        × ((write component i t s).2 ≡ s)
  unfolding write mark_dirty_or_defer
  write_deferring component i ws r s = (ground arith, ground arith)

  write_marking :
      (component i : ℕ) (r : Bool) (s : Storage V)
      → let t : ThreadState = record { deferred_dirty_writes = none; defer_range_dirty = r } in
        ((write component i t s).1 ≡ t) × ((write component i t s).2 ≡ mark_dirty i s)
  unfolding write mark_dirty_or_defer mark_dirty
  write_marking component i r s = (ground arith, ground arith)

  write_all-deferring :
      (component : ℕ) (is : List ℕ) (ws : List DeferredDirtyWrite) (r : Bool) (s : Storage V)
      → write_all component is (record { deferred_dirty_writes = some ws; defer_range_dirty = r }) s
        ≡ (
          record {
            deferred_dirty_writes = some (ws ++ deferred component is s);
            defer_range_dirty = r;
          },
          s,
        )
  unfolding write_all deferred
  write_all-deferring component [] ws r s = rw append-nil
  write_all-deferring component (i ∷ is) ws r s = elim (Bool-cases (contains s i)) [
    | inl there ↦
        rw ((write_deferring component i ws r s).0, (write_deferring component i ws r s).1)
          (simp there (
            write_all-deferring component is
              (push_back ws (record { storage = component; index = i })) r s
            ∙ simp append_assoc))
    | inr out ↦
        rw ((write_deferring component i ws r s).0, (write_deferring component i ws r s).1)
          (simp out (write_all-deferring component is ws r s))
  ]

  deferred_congr :
      (component : ℕ) (is : List ℕ) (s s' : Storage V)
      → contains s ≡ contains s'
      → deferred component is s ≡ deferred component is s'
  unfolding deferred
  deferred_congr component [] s s' h = refl
  deferred_congr component (i ∷ is) s s' h = rw (h, deferred_congr component is s s' h)

  merge_own :
      (component i : ℕ) (ws : List DeferredDirtyWrite) (s : Storage V)
      → merge_deferred_dirty_writes component (record { storage = component; index = i } ∷ ws) s
        ≡ merge_deferred_dirty_writes component ws (mark_dirty i s)
  unfolding merge_deferred_dirty_writes
  merge_own component i ws s = rw (==_self component)

  mark_dirty-missing : (i : ℕ) (s : Storage V) → contains s i ≡ false → mark_dirty i s ≡ s
  unfolding mark_dirty
  mark_dirty-missing i s h = simp h

  write_all-marking :
      (component : ℕ) (is : List ℕ) (r : Bool) (s : Storage V)
      → (write_all component is
          (record { deferred_dirty_writes = none; defer_range_dirty = r })
          s).1
        ≡ merge_deferred_dirty_writes component (deferred component is s) s
  unfolding write_all deferred
  write_all-marking component [] r s = unfold merge_deferred_dirty_writes in refl
  write_all-marking component (i ∷ is) r s =
      rw (write_all-cons, (write_marking component i r s).0, (write_marking component i r s).1)
        (write_all-marking component is r (mark_dirty i s)
          ∙ rw (deferred_congr component is (mark_dirty i s) s (contains-mark_dirty i s))
              (elim (Bool-cases (contains s i)) [
                | inl there ↦ simp there (sym (merge_own component i (deferred component is s) s))
                | inr out ↦ simp (out, mark_dirty-missing i s out) refl
              ]))

  -- Any writes made while the dirty marks are deferred, with the collected marks merged
  -- afterwards, leave the storage as the same writes do that mark their entries at once; and the
  -- thread's variables are after the scope what they were before it.
  pub merge-deferred :
      (component : ℕ) (is : List ℕ) (r : Bool) (before : ThreadState) (s : Storage V)
      → let (saved, inner) = enter_scope r before in
        let (t, s') = write_all component is inner s in
        let (ws, after) = leave_scope saved t in
        (merge_deferred_dirty_writes component ws s'
          ≡ (write_all component is
              (record { deferred_dirty_writes = none; defer_range_dirty = r })
              s).1)
        × (after ≡ before)
  unfolding enter_scope leave_scope
  merge-deferred component is r before s =
      rw (write_all-deferring component is [] r s) (sym (write_all-marking component is r s), refl)
