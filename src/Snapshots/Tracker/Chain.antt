-- ===== src/Snapshots/Tracker/Chain.antt =====
-- The deltas that a tracker of src/snapshot.cpp writes, and the state of a reader that restores what
-- was written before them.
use ashiato.Base.{
  ℕ, ◌+◌, ◌%◌, ◌^◌, ◌≡◌, refl, sym, ap, ◌∙◌, Bool, true, false, not, if◌then◌else◌, List, [], ◌∷◌,
  ◌++◌, Option, some, none, Option-cases, Bool-cases, inl, inr, Result, ok, bind-ok, ok-eq, ◌>>=◌,
  ==_iff, ◌==◌, ◌&&◌, ==_self, arith,
}
use mathlib.Core.Path.{subst}
use ashiato.Snapshots.{World, Snapshot, DeltaSnapshot}
use ashiato.Snapshots.Restore.{restore_snapshot, restore_delta_snapshot}
use ashiato.Snapshots.Restore.Baseline.{restore_snapshot-token, restore_delta_snapshot-tokens}
use ashiato.Snapshots.Create.{
  create_snapshot, create_delta, dirty_copies, create_delta_snapshot_of_full,
  create_delta_snapshot_of_delta,
}
use ashiato.Snapshots.Tracker.{
  Tracker, Frame, full, delta, writes_full, write_full, delta_after, write_delta,
  on_registry_dirty_frame, all_frames,
}

some_eq {ℓ} : {A : Type ℓ} {a b : A} → some a ≡ some b → a ≡ b
some_eq h = cc

if_else {ℓ} : {A : Type ℓ} (b : Bool) (x y z : A) → (if b then x else y) ≡ z → b ≡ false → y ≡ z
if_else false x y z h e = h
if_else true x y z h e = cc

if_then {ℓ} : {A : Type ℓ} (b : Bool) (x y z : A) → (if b then x else y) ≡ z → b ≡ true → x ≡ z
if_then true x y z h e = h
if_then false x y z h e = cc

module _ {V : Type 0} where
  create_delta-tokens :
      (w : World V) (fresh : ℕ) (before : Option (List ℕ)) (head base : ℕ) (d : DeltaSnapshot V)
      → create_delta w fresh before head base ≡ ok d
      → (d.baseline_token ≡ base) × (d.state_token ≡ fresh)
  unfolding create_delta
  create_delta-tokens w fresh before head base d h =
      let (copies, done, made) = bind-ok (dirty_copies w.registry _ _) _ d h in
      (sym (ap (λ x. x.baseline_token) (ok-eq made)), sym (ap (λ x. x.state_token) (ok-eq made)))

  -- Is the baseline of each delta the state that the frame before it leaves, or the given one?
  chained : Option ℕ → List (Frame V) → Bool
  chained token [] = true
  chained token (full snapshot ∷ rest) = chained (some snapshot.state_token) rest
  chained none (delta snapshot ∷ rest) = false
  chained (some token) (delta snapshot ∷ rest) =
      let later = chained (some snapshot.state_token) rest in
      token == snapshot.baseline_token && later

  -- The token of the state that the tracker has written last, if it has written any.
  unfoldable pub token_of : Option (DeltaSnapshot V) → Option (Snapshot V) → Option ℕ
  token_of (some d) last = some d.state_token
  token_of none (some s) = some s.state_token
  token_of none none = none

  unfoldable pub token : Tracker V → Option ℕ
  token t = token_of t.last_delta t.last_full

  write_full-chained :
      (w : World V) (t t' : Tracker V) (fs rest : List (Frame V))
      → write_full w t ≡ ok (fs, t')
      → chained (token t') rest ≡ true
      → chained (token t) (fs ++ rest) ≡ true
  unfolding write_full chained token token_of
  write_full-chained w t t' fs rest h later =
      let (s, made, done) = bind-ok (create_snapshot w) _ (fs, t') h in
      let same : (full s ∷ [], record t { last_full = some s; last_delta = none }) ≡ (fs, t') =
        ok-eq done in
      subst (λ x. chained (token t) (x ++ rest) ≡ true) (ap (λ x. x.0) same)
        (subst (λ x. chained (token x) rest ≡ true) (sym (ap (λ x. x.1) same)) later)

  delta_after-baseline :
      (w : World V) (fresh : ℕ) (last : Option (DeltaSnapshot V)) (whole : Option (Snapshot V))
      (d : DeltaSnapshot V)
      → delta_after w fresh last whole ≡ ok (some d)
      → token_of last whole ≡ some d.baseline_token
  unfolding delta_after token_of create_delta_snapshot_of_full create_delta_snapshot_of_delta
  delta_after-baseline w fresh (some last) whole d h =
      let (made, run, done) = bind-ok (create_delta_snapshot_of_delta w fresh last) _ (some d) h in
      let tokens = create_delta-tokens w fresh _ _ _ made run in
      ap some (sym tokens.0 ∙ ap (λ x. x.baseline_token) (some_eq (ok-eq done)))
  delta_after-baseline w fresh none (some last) d h =
      let (made, run, done) = bind-ok (create_delta_snapshot_of_full w fresh last) _ (some d) h in
      let tokens = create_delta-tokens w fresh _ _ _ made run in
      ap some (sym tokens.0 ∙ ap (λ x. x.baseline_token) (some_eq (ok-eq done)))
  delta_after-baseline w fresh none none d h = cc

  write_delta-chained :
      (w : World V) (t t' : Tracker V) (fs rest : List (Frame V))
      → write_delta w t ≡ ok (fs, t')
      → chained (token t') rest ≡ true
      → chained (token t) (fs ++ rest) ≡ true
  unfolding write_delta chained token_of token
  write_delta-chained w t t' fs rest h later =
      let (made, run, done) =
        bind-ok (delta_after w t.next_token t.last_delta t.last_full) _ (fs, t') h in
      elim (Option-cases made) [
        | inl nothing ↦
            let done' : ◌≡◌ {A = Result (List (Frame V) × Tracker V)} (ok ([], t)) (ok (fs, t')) =
              simp nothing at done in
            subst (λ x. chained (token t) (x ++ rest) ≡ true) (ap (λ x. x.0) (ok-eq done'))
              (subst (λ x. chained (token x) rest ≡ true) (sym (ap (λ x. x.1) (ok-eq done'))) later)
        | inr (d, there) ↦
            let run' : delta_after w t.next_token t.last_delta t.last_full ≡ ok (some d) =
              run ∙ ap ok there in
            let done' : (
              delta d ∷ [],
              record t { last_delta = some d; next_token = (t.next_token + 1) % 2 ^ 64 },
            )
                ≡ (fs, t') =
              ok-eq (simp there at done) in
            let after : chained (some d.state_token) rest ≡ true =
              subst (λ x. chained (token x) rest ≡ true) (sym (ap (λ x. x.1) done')) later in
            subst (λ x. chained (token t) (x ++ rest) ≡ true) (ap (λ x. x.0) done')
              (subst (λ x. chained x (delta d ∷ rest) ≡ true)
                (sym (delta_after-baseline w t.next_token t.last_delta t.last_full d run'))
                (ground (arith, after, ==_self d.baseline_token)))
      ]

  frame-chained :
      (w : World V) (t t' : Tracker V) (fs rest : List (Frame V))
      → on_registry_dirty_frame w t ≡ ok (fs, t')
      → chained (token t') rest ≡ true
      → chained (token t) (fs ++ rest) ≡ true
  unfolding on_registry_dirty_frame token
  frame-chained w t t' fs rest h later =
      let counted : Tracker V = record t {
        dirty_frame_count = (t.dirty_frame_count + 1) % 2 ^ 64;
      } in
      let run : t.writes ≡ true
          → (if writes_full ((t.dirty_frame_count + 1) % 2 ^ 64) t
              then write_full w counted
              else write_delta w counted)
            ≡ ok (fs, t') =
        (λ on. if_else (not t.writes) _ _ _ h (ap not on)) in
      elim (Bool-cases t.writes) [
        | inr off ↦
            let same : ◌≡◌ {A = Result (List (Frame V) × Tracker V)} (ok ([], t)) (ok (fs, t')) =
              simp off at h in
            subst (λ x. chained (token t) (x ++ rest) ≡ true) (ap (λ x. x.0) (ok-eq same))
              (subst (λ x. chained (token x) rest ≡ true) (sym (ap (λ x. x.1) (ok-eq same))) later)
        | inl on ↦ elim (Bool-cases (writes_full ((t.dirty_frame_count + 1) % 2 ^ 64) t)) [
          | inl whole ↦
              write_full-chained w counted t' fs rest (if_then _ _ _ _ (run on) whole) later
          | inr part ↦
              write_delta-chained w counted t' fs rest (if_else _ _ _ _ (run on) part) later
        ]
      ]

  all_frames-chained :
      (ws : List (World V)) (t : Tracker V) (fs : List (Frame V))
      → all_frames ws t ≡ ok fs
      → chained (token t) fs ≡ true
  unfolding all_frames chained
  all_frames-chained [] t fs h = subst (λ x. chained (token t) x ≡ true) (ok-eq h) refl
  all_frames-chained (w ∷ ws) t fs h =
      let (done, run, rest) = bind-ok (on_registry_dirty_frame w t) _ fs h in
      let (others, later, whole) = bind-ok (all_frames ws done.1) _ fs rest in
      subst (λ x. chained (token t) x ≡ true) (ok-eq whole)
        (frame-chained w t done.1 done.0 others run (all_frames-chained ws done.1 others later))

  -- A reader restores the frames in their order.
  unfoldable pub restore_all : List (Frame V) → World V → Result (World V)
  restore_all [] w = ok w
  restore_all (full snapshot ∷ rest) w =
      restore_snapshot snapshot w >>= λ next. restore_all rest next
  restore_all (delta snapshot ∷ rest) w =
      restore_delta_snapshot snapshot w >>= λ next. restore_all rest next

  chained-restore_all :
      (known : Option ℕ) (before rest : List (Frame V)) (d : DeltaSnapshot V) (w w' : World V)
      → chained known (before ++ delta d ∷ rest) ≡ true
      → ((k : ℕ) → known ≡ some k → w.state_token ≡ k)
      → restore_all before w ≡ ok w'
      → w'.state_token ≡ d.baseline_token
  unfolding chained restore_all
  chained-restore_all none [] rest d w w' c at_known run = cc
  chained-restore_all (some k) [] rest d w w' c at_known run =
      let same : (k == d.baseline_token) ≡ true = ground arith in
      sym (ap (λ x. x.state_token) (ok-eq run))
      ∙ at_known k refl
      ∙ (==_iff k d.baseline_token).0 same
  chained-restore_all known (full snapshot ∷ before) rest d w w' c at_known run =
      let (next, restored, later) = bind-ok (restore_snapshot snapshot w) _ w' run in
      chained-restore_all (some snapshot.state_token) before rest d next w' c
        (λ k e. restore_snapshot-token snapshot w next restored ∙ some_eq e) later
  chained-restore_all none (delta snapshot ∷ before) rest d w w' c at_known run = cc
  chained-restore_all (some known) (delta snapshot ∷ before) rest d w w' c at_known run =
      let (next, restored, later) = bind-ok (restore_delta_snapshot snapshot w) _ w' run in
      chained-restore_all (some snapshot.state_token) before rest d next w' (ground arith)
        (λ k e. (restore_delta_snapshot-tokens snapshot w next restored).1 ∙ some_eq e) later

  -- Of the frames that a tracker writes for any dirty frames of any registries: where a reader has
  -- restored all that is written before a delta, and started from the state that the tracker had written
  -- last, or from any state where it had written none, its state is that of the delta's baseline,
  -- which `restore_delta_snapshot` asks for first.
  pub all_frames-baseline :
      (ws : List (World V)) (t : Tracker V) (before rest : List (Frame V)) (d : DeltaSnapshot V)
      (w w' : World V)
      → all_frames ws t ≡ ok (before ++ delta d ∷ rest)
      → ((k : ℕ) → token t ≡ some k → w.state_token ≡ k)
      → restore_all before w ≡ ok w'
      → w'.state_token ≡ d.baseline_token
  all_frames-baseline ws t before rest d w w' written at_last run =
      chained-restore_all (token t) before rest d w w'
        (all_frames-chained ws t (before ++ delta d ∷ rest) written) at_last run
