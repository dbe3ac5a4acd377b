-- ===== src/Tracking/Consistency/Run.antt =====
-- The consistency window of a goal, in terms of the points handed in
-- (packages/domain-core/src/consistency.ts).
use teacher_assistant.Base.{
  ℕ, ◌≤◌, ◌≡◌, refl, ap, ◌∙◌, inl, inr, true, false, ◌&&◌, List, [], ◌∷◌, ◌++◌, map, none, arith,
  append_assoc, append-nil, All, Bool-cases, filter,
}
use teacher_assistant.Tracking.Types.{Arithmetic, IepGoal, ProgressDataPoint}
use teacher_assistant.Tracking.Order.{
  ArcKey, compare_arc_oldest_first, precedes, insert, sort, arc_key, in_computed_math,
}
use teacher_assistant.Tracking.Consistency.{
  ProbeDay, add_probe, group_from, group_by_admin_date, scored_probes_in_order, is_clamped_scored,
  meets_criterion, percent_window, consistency_window, is_percent,
}
use teacher_assistant.Tracking.Consistency.Days.{
  Mark, all_good, count_good, run_spec, run_of, run_days-run, Grouped, add_probe-Grouped,
  first-Grouped,
}

abbrev Ascending : List Mark → Type 0
Ascending [] = Unit
Ascending (m ∷ ms) = All (λ (n : Mark). m.0 ≤ n.0) ms × Ascending ms

fold_marks : List ProbeDay → List Mark → List ProbeDay
fold_marks days [] = days
fold_marks days (m ∷ ms) = fold_marks (add_probe days m.0 m.1) ms

fold-run :
    (ms pre : List Mark) (days : List ProbeDay) (last : ℕ)
    → Grouped pre days last
    → All (λ (n : Mark). last ≤ n.0) ms
    → Ascending ms
    → run_of 0 (fold_marks days ms) ≡ run_spec (pre ++ ms)
unfolding fold_marks
fold-run [] pre days last g h asc = rw (append-nil pre) g.run
fold-run ((date, hit) ∷ ms) pre days last g (le, h) (later, asc) =
    fold-run ms (pre ++ (date, hit) ∷ []) (add_probe days date hit) date
      (add_probe-Grouped pre days date hit last g le) later asc
    ∙ rw (append_assoc pre ((date, hit) ∷ []) ms)

run_of-fold : (ms : List Mark) → Ascending ms → run_of 0 (fold_marks [] ms) ≡ run_spec ms
unfolding fold_marks run_of run_spec
run_of-fold [] asc = refl
run_of-fold ((date, hit) ∷ ms) (later, asc) =
    fold-run ms ((date, hit) ∷ []) (add_probe [] date hit) date (first-Grouped date hit) later asc

module _ {ℓ} {P : Type ℓ} (key : P → ArcKey) (mark : P → Mark)
    (dated : (p : P) → (mark p).0 ≡ (key p).date) where
  All-insert :
      (t : ℕ) (p : P) (qs : List P)
      → t ≤ (mark p).0
      → All (λ (n : Mark). t ≤ n.0) (map mark qs)
      → All (λ (n : Mark). t ≤ n.0) (map mark (insert key p qs))
  unfolding insert
  All-insert t p [] h k = (h, tt)
  All-insert t p (q ∷ qs) h (k, ks) =
      elim (Bool-cases (precedes (compare_arc_oldest_first (key p) (key q)))) [
        | inl before ↦ rw before (h, (k, ks))
        | inr after ↦ rw after (k, All-insert t p qs h ks)
      ]

  precedes-le :
      (p q : P)
      → precedes (compare_arc_oldest_first (key p) (key q)) ≡ true
      → (mark p).0 ≤ (mark q).0
  unfolding compare_arc_oldest_first
  precedes-le p q h = ground (arith, dated p, dated q)

  follows-le :
      (p q : P)
      → precedes (compare_arc_oldest_first (key p) (key q)) ≡ false
      → (mark q).0 ≤ (mark p).0
  unfolding compare_arc_oldest_first
  follows-le p q h = ground (arith, dated p, dated q)

  All-weaken :
      (a b : ℕ) (ms : List Mark)
      → a ≤ b
      → All (λ (n : Mark). b ≤ n.0) ms
      → All (λ (n : Mark). a ≤ n.0) ms
  All-weaken a b [] h k = tt
  All-weaken a b (m ∷ ms) h (k, ks) = (omega arith, All-weaken a b ms h ks)

  insert-Ascending :
      (p : P) (qs : List P) → Ascending (map mark qs) → Ascending (map mark (insert key p qs))
  unfolding insert
  insert-Ascending p [] h = (tt, tt)
  insert-Ascending p (q ∷ qs) (h, hs) =
      elim (Bool-cases (precedes (compare_arc_oldest_first (key p) (key q)))) [
        | inl before ↦
            let le = precedes-le p q before in
            rw before ((le, All-weaken (mark p).0 (mark q).0 (map mark qs) le h), (h, hs))
        | inr after ↦
            rw after (All-insert (mark q).0 p qs (follows-le p q after) h, insert-Ascending p qs hs)
      ]

  sort-Ascending : (ps : List P) → Ascending (map mark (sort key ps))
  unfolding sort
  sort-Ascending [] = tt
  sort-Ascending (p ∷ ps) = insert-Ascending p (sort key ps) (sort-Ascending ps)

  -- The rule's count is the same in every order.
  all_good-insert :
      (t : ℕ) (p : P) (qs : List P)
      → all_good t (map mark (insert key p qs)) ≡ all_good t (map mark (p ∷ qs))
  unfolding insert
  all_good-insert t p [] = refl
  all_good-insert t p (q ∷ qs) = ground (arith, all_good-insert t p qs)

  all_good-sort :
      (t : ℕ) (ps : List P) → all_good t (map mark (sort key ps)) ≡ all_good t (map mark ps)
  unfolding sort
  all_good-sort t [] = refl
  all_good-sort t (p ∷ ps) = all_good-insert t p (sort key ps) ∙ ground (arith, all_good-sort t ps)

  count_good-insert :
      (all : List Mark) (p : P) (qs : List P)
      → count_good all (map mark (insert key p qs)) ≡ count_good all (map mark (p ∷ qs))
  unfolding insert
  count_good-insert all p [] = refl
  count_good-insert all p (q ∷ qs) = ground (arith, count_good-insert all p qs)

  count_good-sort :
      (all : List Mark) (ps : List P)
      → count_good all (map mark (sort key ps)) ≡ count_good all (map mark ps)
  unfolding sort
  count_good-sort all [] = refl
  count_good-sort all (p ∷ ps) =
      count_good-insert all p (sort key ps) ∙ ground (arith, count_good-sort all ps)

  count_good-same :
      (all all' ms : List Mark)
      → ((t : ℕ) → all_good t all ≡ all_good t all')
      → count_good all ms ≡ count_good all' ms
  count_good-same all all' [] h = refl
  count_good-same all all' (m ∷ ms) h = ground (arith, h m.0, count_good-same all all' ms h)

  pub run_spec-sort : (ps : List P) → run_spec (map mark (sort key ps)) ≡ run_spec (map mark ps)
  unfolding run_spec
  run_spec-sort ps =
      count_good-same (map mark (sort key ps)) (map mark ps) (map mark (sort key ps))
        (λ t. all_good-sort t ps)
      ∙ count_good-sort (map mark ps) ps

  run_of-sort :
      (ps : List P) → run_of 0 (fold_marks [] (map mark (sort key ps))) ≡ run_spec (map mark ps)
  run_of-sort ps = run_of-fold (map mark (sort key ps)) (sort-Ascending ps) ∙ run_spec-sort ps

module _ (A : Arithmetic) (goal : IepGoal A) where
  -- A point's date, and whether it meets the goal's criterion.
  abbrev pub mark : ProgressDataPoint A → Mark
  mark p = (p.admin_date, meets_criterion A goal p)

  group_from-fold :
      (days : List ProbeDay) (ps : List (ProgressDataPoint A))
      → group_from A days (meets_criterion A goal) ps ≡ fold_marks days (map mark ps)
  unfolding group_from fold_marks
  group_from-fold days [] = refl
  group_from-fold days (p ∷ ps) =
      group_from-fold (add_probe days p.admin_date (meets_criterion A goal p)) ps

  -- The points that the window counts: the goal's scored ones, on or after the clamp, in the math.
  abbrev pub eligible : List (ProgressDataPoint A) → List (ProgressDataPoint A)
  eligible points = filter (λ p. is_clamped_scored A goal p && in_computed_math A p) points

  -- For a percent goal the run of the consistency window is the number of eligible points on whose day
  -- and on every later day each eligible point meets the criterion, in whatever order the points come.
  pub consistency_window-run :
      (points : List (ProgressDataPoint A))
      → is_percent goal.denominator_model ≡ true
      → (consistency_window A goal points).run ≡ run_spec (map mark (eligible points))
  unfolding consistency_window percent_window scored_probes_in_order group_by_admin_date
  consistency_window-run points h = rw h (
      run_days-run goal.criterion_consistency.n_probes 0 none
        (group_from A [] (meets_criterion A goal) (sort (arc_key A) (eligible points)))
      ∙ ap (run_of 0) (group_from-fold [] (sort (arc_key A) (eligible points)))
      ∙ run_of-sort (arc_key A) mark (λ p. refl) (eligible points))
