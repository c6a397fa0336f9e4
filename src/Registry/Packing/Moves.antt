-- ===== src/Registry/Packing/Moves.antt =====
-- The loop of `enter_group` and `leave_group` over the owned components (src/groups.cpp): each of their
-- storages moves the index to the target, and nothing else changes.
use ashiato.Base.{
  ℕ, ◌<◌, ◌≡◌, refl, sym, ap, ◌∙◌, true, false, ◌==◌, arith, List, [], ◌∷◌, Bool-cases, inl, inr,
  ==_iff, ==_self, elem, some, ok,
}
use mathlib.Core.Path.{subst}
use ashiato.Base.Maps.{find, assign, find-assign}
use ashiato.EntityStore.Invariant.{Distinct}
use ashiato.Storage.{Storage, sparse_at, contains}
use ashiato.Storage.Laws.Invariant.{IsValid}
use ashiato.Storage.Laws.Swap.{Reordered, exchanged, move_index_to_dense_lem}
use ashiato.Registry.{Registry, component_entity, storage_for, put_storage}
use ashiato.Registry.Groups.{move_in, move_in_all}
use ashiato.Registry.Packing.{IsRegistered, IsRegistered-storages}

==-swap : (a b : ℕ) → (a == b) ≡ false → (b == a) ≡ false
==-swap a b h = ground arith

distinct-apart : (c k : ℕ) (cs : List ℕ) → elem c cs ≡ false → elem k cs ≡ true → (c == k) ≡ false
distinct-apart c k cs out e = elim (Bool-cases (c == k)) [
  | inl same ↦ absurd (ground (arith, ap (λ x. elem x cs) ((==_iff c k).0 same)))
  | inr other ↦ other
]

module _ {V : Type 0} where
  -- The storage of a component before and after the move of `index` to `target`.
  pub record Shifted (r r' : Registry V) (component index target : ℕ) : Type 0 where
    pub before : Storage V
    pub after : Storage V
    pub was : find component r.storages ≡ some before
    pub is : find component r'.storages ≡ some after
    pub valid : IsValid before
    pub held : contains before index ≡ true
    pub fits : target < before.size
    pub moved : Reordered before after (exchanged before (sparse_at before index) target)

  -- `r'` is `r` with the storages of these components moved.
  pub record Moved (r r' : Registry V) (cs : List ℕ) (index target : ℕ) : Type 0 where
    pub same : r' ≡ record r { storages = r'.storages }
    pub each : (c : ℕ) → elem c cs ≡ true → Shifted r r' c index target
    pub others : (c : ℕ) → elem c cs ≡ false → find c r'.storages ≡ find c r.storages

  -- A storage that the move of the index can be made in.
  pub record CanMove (r : Registry V) (component index target : ℕ) : Type 0 where
    pub registered : IsRegistered r component
    pub storage : Storage V
    pub found : find component r.storages ≡ some storage
    pub valid : IsValid storage
    pub held : contains storage index ≡ true
    pub fits : target < storage.size

  storage_for-found :
      (r : Registry V) (c : ℕ) (s : Storage V)
      → IsRegistered r c
      → find c r.storages ≡ some s
      → storage_for r (component_entity r c) ≡ ok (s, r)
  unfolding storage_for
  storage_for-found r c s h e = simp (h.known.1, h.own_slot, e) refl

  -- One storage.
  move_in_lem :
      (r : Registry V) (c index target : ℕ)
      → (k : CanMove r c index target)
      → (s' : Storage V) × (move_in r c index target ≡ ok (put_storage r c s'))
        × Reordered k.storage s' (exchanged k.storage (sparse_at k.storage index) target)
  unfolding move_in
  move_in_lem r c index target k =
      let (s', run, m, _) = move_index_to_dense_lem k.storage index target k.valid k.held k.fits in
      (
        s',
        simp (storage_for-found r c k.storage k.registered k.found, run, k.registered.own_slot)
            refl,
        m,
      )

  CanMove-put :
      (r : Registry V) (c d index target : ℕ) (s' : Storage V)
      → (c == d) ≡ false
      → CanMove r d index target
      → CanMove (put_storage r c s') d index target
  CanMove-put r c d index target s' other k = record {
    registered = IsRegistered-storages r (assign c s' r.storages) d k.registered;
    storage = k.storage;
    found = find-assign c d s' r.storages ∙ simp other k.found;
    valid = k.valid;
    held = k.held;
    fits = k.fits;
  }

  each-Moved :
      (c k : ℕ) (cs : List ℕ) (r r' : Registry V) (s' : Storage V) (index target : ℕ)
      → elem c cs ≡ false
      → (h : CanMove r c index target)
      → Reordered h.storage s' (exchanged h.storage (sparse_at h.storage index) target)
      → Moved (put_storage r c s') r' cs index target
      → elem k (c ∷ cs) ≡ true
      → Shifted r r' k index target
  each-Moved c k cs r r' s' index target out h m all e = elim (Bool-cases (k == c)) [
    | inl here ↦
        subst (λ x. Shifted r r' x index target) (sym ((==_iff k c).0 here))
          record {
            before = h.storage;
            after = s';
            was = h.found;
            is = all.others c out ∙ find-assign c c s' r.storages ∙ simp (==_self c) refl;
            valid = h.valid;
            held = h.held;
            fits = h.fits;
            moved = m;
          }
    | inr there ↦
        let later : Shifted (put_storage r c s') r' k index target = all.each k (ground arith) in
        record {
          before = later.before;
          after = later.after;
          was = sym (find-assign c k s' r.storages ∙ simp (==-swap k c there) refl) ∙ later.was;
          is = later.is;
          valid = later.valid;
          held = later.held;
          fits = later.fits;
          moved = later.moved;
        }
  ]

  pub move_in_all_lem :
      (cs : List ℕ) (r : Registry V) (index target : ℕ)
      → Distinct cs
      → ((c : ℕ) → elem c cs ≡ true → CanMove r c index target)
      → (r' : Registry V) × (move_in_all cs index target r ≡ ok r') × Moved r r' cs index target
  unfolding move_in_all
  move_in_all_lem [] r index target d h =
      (r, refl, record { same = refl; each = λ c e. absurd (ground arith); others = λ c e. refl })
  move_in_all_lem (c ∷ cs) r index target d h =
      let (s', run, m) = move_in_lem r c index target (h c (ground arith)) in
      let apart : (k : ℕ) → elem k cs ≡ true → (c == k) ≡ false =
        (λ k e. distinct-apart c k cs d.0 e) in
      let (r', rest, all) =
        move_in_all_lem cs (put_storage r c s') index target d.1
          (λ k e. CanMove-put r c k index target s' (apart k e) (h k (ground arith))) in
      (
        r',
        simp run rest,
        record {
          same = all.same;
          each = λ k e. each-Moved c k cs r r' s' index target d.0 (h c (ground arith)) m all e;
          others = λ k e.
              all.others k (ground arith)
              ∙ find-assign c k s' r.storages
              ∙ simp (==-swap k c (ground arith)) refl;
        },
      )
