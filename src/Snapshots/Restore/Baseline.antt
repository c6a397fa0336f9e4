-- ===== src/Snapshots/Restore/Baseline.antt =====
-- Which deltas `restore_delta_snapshot` of src/snapshot.cpp takes.
use ashiato.Base.{
  ◌≡◌, ◌≢◌, refl, sym, ap, ◌∙◌, Bool, true, false, not, ◌==◌, [], ok, err, logic_error, throw_if,
  bind-ok, then-ok, ok-eq, Bool-cases, inl, inr, ==_iff,
}
use ashiato.Snapshots.{World, Snapshot, DeltaSnapshot}
use ashiato.Snapshots.Restore.{
  restore_snapshot, clones_for_restore, restore_delta_snapshot, check_components, destroy_all,
  destroyed_entities, with_entities, apply_storages, restore_internal_bookkeeping_tags,
}

throw_if-not : (b : Bool) → throw_if (not b) logic_error ≡ ok tt → b ≡ true
throw_if-not true h = refl
throw_if-not false h = cc

module _ {V : Type 0} where
  pub restore_delta_snapshot-tokens :
      (d : DeltaSnapshot V) (w w' : World V)
      → restore_delta_snapshot d w ≡ ok w'
      → (w.state_token ≡ d.baseline_token) × (w'.state_token ≡ d.state_token)
  unfolding restore_delta_snapshot
  restore_delta_snapshot-tokens d w w' h =
      let (same, h1) =
        then-ok (throw_if (not (w.state_token == d.baseline_token)) logic_error) _ w' h in
      let (checked, h2) = then-ok (check_components w.registry.records d.components) _ w' h1 in
      let (bare, run3, h3) =
        bind-ok (destroy_all (destroyed_entities d.storages []) (with_entities d w)) _ w' h2 in
      let (applied, run4, h4) = bind-ok (apply_storages d.storages bare) _ w' h3 in
      let (tagged, run5, h5) = bind-ok (restore_internal_bookkeeping_tags w.jobs _) _ w' h4 in
      (
        (==_iff w.state_token d.baseline_token).0 (throw_if-not _ same),
        sym (ap (λ x. x.state_token) (ok-eq h5)),
      )

  pub restore_snapshot-token :
      (s : Snapshot V) (w w' : World V)
      → restore_snapshot s w ≡ ok w'
      → w'.state_token ≡ s.state_token
  unfolding restore_snapshot
  restore_snapshot-token s w w' h =
      let (storages, run, h1) = bind-ok (clones_for_restore s.storages) _ w' h in
      let (tagged, run2, h2) = bind-ok (restore_internal_bookkeeping_tags w.jobs _) _ w' h1 in
      sym (ap (λ x. x.state_token) (ok-eq h2))

  -- A delta is taken only in the state of its baseline, and leaves the state of its own token. Where the
  -- tokens of a delta differ, it is not taken a second time: `restore_delta_snapshot` throws, and so it
  -- does for every other delta with the same baseline.
  pub restore_delta_snapshot-once :
      (d other : DeltaSnapshot V) (w w' : World V)
      → d.state_token ≢ d.baseline_token
      → other.baseline_token ≡ d.baseline_token
      → restore_delta_snapshot d w ≡ ok w'
      → (w.state_token ≡ d.baseline_token)
        × (w'.state_token ≡ d.state_token)
        × (restore_delta_snapshot d w' ≡ err logic_error)
        × (restore_delta_snapshot other w' ≡ err logic_error)
  unfolding restore_delta_snapshot
  restore_delta_snapshot-once d other w w' apart same h =
      let (before, after) = restore_delta_snapshot-tokens d w w' h in
      let mine : (w'.state_token == d.baseline_token) ≡ false =
        (elim (Bool-cases (w'.state_token == d.baseline_token)) [
          | inl eq ↦ absurd (apart (sym after ∙ (==_iff w'.state_token d.baseline_token).0 eq))
          | inr ne ↦ ne
        ]) in
      let theirs : (w'.state_token == other.baseline_token) ≡ false =
        ap (λ x. w'.state_token == x) same ∙ mine in
      (before, after, simp mine refl, simp theirs refl)
