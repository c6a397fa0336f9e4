-- ===== src/Snapshots/Tracker.antt =====
-- `DirtySnapshotTracker` of src/snapshot.cpp: it writes a full snapshot or a delta for each dirty
-- frame.
pub mod Chain
use ashiato.Base.{
  ℕ, ◌+◌, ◌%◌, ◌^◌, ◌≡◌, refl, sym, ap, ◌∙◌, Bool, true, false, not, ◌==◌, ◌||◌, ◌&&◌,
  if◌then◌else◌, List, [], ◌∷◌, Option, some, none, Option-cases, Bool-cases, inl, inr, Result, ok,
  err, ◌>>=◌, ◌++◌, ==_self, arith,
}
use ashiato.Snapshots.{World, Snapshot, DeltaSnapshot}
use ashiato.Snapshots.Create.{
  create_snapshot, create_delta, dirty_copies, clone_storages, create_delta_snapshot_of_full,
  create_delta_snapshot_of_delta,
}

-- `options_.write` is set in `writes`. The counter of `next_state_token`, which all registries share,
-- stands here too.
pub record Tracker (V : Type 0) : Type 0 where
  pub writes : Bool
  pub full_snapshot_interval_dirty_frames : ℕ
  pub dirty_frame_count : ℕ
  pub last_full : Option (Snapshot V)
  pub last_delta : Option (DeltaSnapshot V)
  pub next_token : ℕ

-- A frame that is given to `options_.write`.
pub data Frame (V : Type 0) : Type 0 where
  full : Snapshot V → Frame V
  delta : DeltaSnapshot V → Frame V

module _ {V : Type 0} where
  unfoldable pub is_missing : Option (Snapshot V) → Bool
  is_missing none = true
  is_missing (some snapshot) = false

  -- `x % 0` is not computed.
  unfoldable pub writes_full : ℕ → Tracker V → Bool
  writes_full count t =
      is_missing t.last_full
      || t.full_snapshot_interval_dirty_frames == 0
      || count % t.full_snapshot_interval_dirty_frames == 0

  unfoldable pub write_full : World V → Tracker V → Result (List (Frame V) × Tracker V)
  write_full w t = create_snapshot w >>= λ snapshot.
      ok (full snapshot ∷ [], record t { last_full = some snapshot; last_delta = none })

  -- The baseline is the last delta, or else the last full snapshot.
  unfoldable pub delta_after :
      World V
      → ℕ
      → Option (DeltaSnapshot V)
      → Option (Snapshot V)
      → Result (Option (DeltaSnapshot V))
  delta_after w fresh_token (some last) last_full =
      create_delta_snapshot_of_delta w fresh_token last >>= λ made. ok (some made)
  delta_after w fresh_token none (some last) =
      create_delta_snapshot_of_full w fresh_token last >>= λ made. ok (some made)
  delta_after w fresh_token none none = ok none

  unfoldable pub write_delta : World V → Tracker V → Result (List (Frame V) × Tracker V)
  write_delta w t = delta_after w t.next_token t.last_delta t.last_full >>= λ made. elim made [
    | none ↦ ok ([], t)
    | some snapshot ↦ ok (
      delta snapshot ∷ [],
      record t { last_delta = some snapshot; next_token = (t.next_token + 1) % 2 ^ 64 },
    )
  ]

  unfoldable pub on_registry_dirty_frame : World V → Tracker V → Result (List (Frame V) × Tracker V)
  on_registry_dirty_frame w t =
      if not t.writes
      then ok ([], t)
      else let count = (t.dirty_frame_count + 1) % 2 ^ 64 in
        let counted = record t { dirty_frame_count = count } in
        if writes_full count t then write_full w counted else write_delta w counted

  -- The frames of several dirty frames, in their order.
  unfoldable pub all_frames : List (World V) → Tracker V → Result (List (Frame V))
  all_frames [] t = ok []
  all_frames (w ∷ rest) t = on_registry_dirty_frame w t >>= λ done.
      all_frames rest done.1 >>= λ others. ok (done.0 ++ others)
