-- ===== src/Tracking/Consistency/Days.antt =====
-- The consistency run over day groups against a count that mentions no order
-- (groupByAdminDate and the run loop of packages/domain-core/src/consistency.ts).
use teacher_assistant.Base.{
  ℕ, suc, ◌+◌, ◌≤◌, ◌<◌, ◌≡◌, refl, sym, ap, ◌∙◌, inl, inr, Bool, true, false, ◌&&◌, ◌||◌, not,
  List, [], ◌∷◌, ◌++◌, Option, some, arith, ◌==◌, leb, ltb, if◌then◌else◌, is_some, append_assoc,
  All, Bool-cases,
}
use teacher_assistant.Tracking.Consistency.{ProbeDay, add_probe, run_days, hit_of}

-- A scored probe as the window sees it: its date, and whether it meets the criterion.
abbrev pub Mark : Type 0
Mark = ℕ × Bool

-- Every probe dated t or later meets the criterion.
abbrev pub all_good : ℕ → List Mark → Bool
all_good t [] = true
all_good t ((date, hit) ∷ ms) = (hit || ltb date t) && all_good t ms

abbrev pub count_good : List Mark → List Mark → ℕ
count_good all [] = 0
count_good all ((date, hit) ∷ ms) =
    if all_good date all then suc (count_good all ms) else count_good all ms

-- The run that the rule describes: the probes on whose day and after it every probe meets the
-- criterion.
unfoldable pub run_spec : List Mark → ℕ
run_spec ms = count_good ms ms

unfoldable pub run_of : ℕ → List ProbeDay → ℕ
run_of r [] = r
run_of r (d ∷ ds) = run_of (if d.meets == d.count then r + d.count else 0) ds

pub run_days-run :
    (required r : ℕ) (met : Option ℕ) (ds : List ProbeDay)
    → (run_days required r met ds).0 ≡ run_of r ds
unfolding run_days run_of
run_days-run required r met [] = refl
run_days-run required r met (d ∷ ds) =
    run_days-run required (if d.meets == d.count then r + d.count else 0)
      (if leb required (if d.meets == d.count then r + d.count else 0) && not (is_some met)
        then some d.date
        else met)
      ds

run_of-append : (r : ℕ) (xs ys : List ProbeDay) → run_of r (xs ++ ys) ≡ run_of (run_of r xs) ys
unfolding run_of
run_of-append r [] ys = refl
run_of-append r (d ∷ xs) ys = run_of-append (if d.meets == d.count then r + d.count else 0) xs ys

add_probe-last :
    (ds : List ProbeDay) (d : ProbeDay) (date : ℕ) (hit : Bool)
    → add_probe (ds ++ d ∷ []) date hit ≡ ds ++ add_probe (d ∷ []) date hit
unfolding add_probe
add_probe-last [] d date hit = refl
add_probe-last (x ∷ []) d date hit = refl
add_probe-last (x ∷ y ∷ ds) d date hit =
    ap (λ (l : List ProbeDay). x ∷ l) (add_probe-last (y ∷ ds) d date hit)

all_good-append :
    (t : ℕ) (ms : List Mark) (date : ℕ) (hit : Bool)
    → all_good t (ms ++ (date, hit) ∷ []) ≡ (all_good t ms && (hit || ltb date t))
all_good-append t [] date hit = ground arith
all_good-append t ((x, h) ∷ ms) date hit = ground (arith, all_good-append t ms date hit)

-- A later probe that meets the criterion spoils no earlier one.
count_good-hit :
    (all ms : List Mark) (date : ℕ) → count_good (all ++ (date, true) ∷ []) ms ≡ count_good all ms
count_good-hit all [] date = refl
count_good-hit all ((x, h) ∷ ms) date =
    ground (arith, all_good-append x all date true, count_good-hit all ms date)

-- One that misses it spoils every probe dated no later.
count_good-miss :
    (all ms : List Mark) (date : ℕ)
    → All (λ (m : Mark). m.0 ≤ date) ms
    → count_good (all ++ (date, false) ∷ []) ms ≡ 0
count_good-miss all [] date h = refl
count_good-miss all ((x, h) ∷ ms) date (le, rest) =
    ground (arith, all_good-append x all date false, count_good-miss all ms date rest)

count_good-append :
    (all ms : List Mark) (date : ℕ) (hit : Bool)
    → count_good all (ms ++ (date, hit) ∷ [])
      ≡ (if all_good date all then suc (count_good all ms) else count_good all ms)
count_good-append all [] date hit = refl
count_good-append all ((x, h) ∷ ms) date hit = ground (arith, count_good-append all ms date hit)

All-append-le :
    (ms : List Mark) (date : ℕ) (hit : Bool)
    → All (λ (m : Mark). m.0 ≤ date) ms
    → All (λ (m : Mark). m.0 ≤ date) (ms ++ (date, hit) ∷ [])
All-append-le [] date hit h = (omega arith, tt)
All-append-le (m ∷ ms) date hit (le, h) = (le, All-append-le ms date hit h)

All-le_trans :
    (ms : List Mark) (a b : ℕ)
    → a ≤ b
    → All (λ (m : Mark). m.0 ≤ a) ms
    → All (λ (m : Mark). m.0 ≤ b) ms
All-le_trans [] a b h k = tt
All-le_trans (m ∷ ms) a b h (le, k) = (omega arith, All-le_trans ms a b h k)

-- Past the last date every day is good.
all_good-later :
    (ms : List Mark) (a t : ℕ) → All (λ (m : Mark). m.0 ≤ a) ms → a < t → all_good t ms ≡ true
all_good-later [] a t h lt = refl
all_good-later ((x, h) ∷ ms) a t (le, k) lt = ground (arith, all_good-later ms a t k lt)

run_spec-miss :
    (ms : List Mark) (date : ℕ)
    → All (λ (m : Mark). m.0 ≤ date) ms
    → run_spec (ms ++ (date, false) ∷ []) ≡ 0
unfolding run_spec
run_spec-miss ms date h =
    count_good-miss ms (ms ++ (date, false) ∷ []) date (All-append-le ms date false h)

run_spec-hit :
    (ms : List Mark) (date : ℕ)
    → run_spec (ms ++ (date, true) ∷ [])
      ≡ (if all_good date ms then suc (run_spec ms) else run_spec ms)
unfolding run_spec
run_spec-hit ms date =
    count_good-append (ms ++ (date, true) ∷ []) ms date true
    ∙ rw (count_good-hit ms ms date) (ground (arith, all_good-append date ms date true))

run_spec-after :
    (ms : List Mark) (date : ℕ) (hit : Bool)
    → All (λ (m : Mark). m.0 ≤ date) ms
    → run_spec (ms ++ (date, hit) ∷ [])
      ≡ (if hit then (if all_good date ms then suc (run_spec ms) else run_spec ms) else 0)
run_spec-after ms date true h = run_spec-hit ms date
run_spec-after ms date false h = run_spec-miss ms date h

-- The day groups of the marks seen so far: the last day `d` has the latest date, it is full exactly if
-- its probes all meet the criterion, and the run is the one that the rule describes.
pub record Grouped (ms : List Mark) (days : List ProbeDay) (last : ℕ) : Type 0 where
  pub init : List ProbeDay
  pub d : ProbeDay
  pub dated : d.date ≡ last
  pub split : days ≡ init ++ d ∷ []
  pub latest : All (λ (m : Mark). m.0 ≤ d.date) ms
  pub full : (d.meets == d.count) ≡ all_good d.date ms
  pub within : d.meets ≤ d.count
  pub run : run_of 0 days ≡ run_spec ms

run_of-last :
    (init : List ProbeDay) (d : ProbeDay)
    → run_of 0 (init ++ d ∷ []) ≡ (if d.meets == d.count then run_of 0 init + d.count else 0)
unfolding run_of
run_of-last init d = run_of-append 0 init (d ∷ [])

same_day : ProbeDay → Bool → ProbeDay
same_day d hit = record { date = d.date; count = d.count + 1; meets = d.meets + hit_of hit }

new_day : ℕ → Bool → ProbeDay
new_day date hit = record { date = date; count = 1; meets = hit_of hit }

-- One more probe, dated no earlier than the last day.
module _ (ms : List Mark) (days : List ProbeDay) (date : ℕ) (hit : Bool) (last : ℕ)
    (g : Grouped ms days last) where
  added : add_probe days date hit ≡ g.init ++ add_probe (g.d ∷ []) date hit
  added = rw g.split (add_probe-last g.init g.d date hit)

  run_before : run_spec ms ≡ (if g.d.meets == g.d.count then run_of 0 g.init + g.d.count else 0)
  run_before = sym g.run ∙ rw g.split (run_of-last g.init g.d)

  same_day-split : g.d.date ≡ date → add_probe days date hit ≡ g.init ++ same_day g.d hit ∷ []
  unfolding same_day add_probe
  same_day-split e = added ∙ ground arith

  new_day-split :
      g.d.date < date → add_probe days date hit ≡ (g.init ++ g.d ∷ []) ++ new_day date hit ∷ []
  unfolding new_day add_probe
  new_day-split lt = added ∙ ground (arith, append_assoc g.init (g.d ∷ []) (new_day date hit ∷ []))

  same_day-Grouped :
      g.d.date ≡ date → Grouped (ms ++ (date, hit) ∷ []) (add_probe days date hit) date
  unfolding same_day
  same_day-Grouped e =
      let older : All (λ (m : Mark). m.0 ≤ date) ms = rw e at g.latest in
      record {
        init = g.init;
        d = same_day g.d hit;
        dated = e;
        split = same_day-split e;
        latest = rw e (All-append-le ms date hit older);
        full = ground (arith, all_good-append g.d.date ms date hit, g.full, g.within);
        within = ground (arith, g.within);
        run =
            ap (run_of 0) (same_day-split e)
            ∙ run_of-last g.init (same_day g.d hit)
            ∙ ground (arith, run_spec-after ms date hit older, run_before, g.full, g.within);
      }

  new_day-Grouped :
      g.d.date < date → Grouped (ms ++ (date, hit) ∷ []) (add_probe days date hit) date
  unfolding new_day
  new_day-Grouped lt =
      let older = All-le_trans ms g.d.date date (omega arith) g.latest in
      let later = all_good-later ms g.d.date date g.latest lt in
      record {
        init = g.init ++ g.d ∷ [];
        d = new_day date hit;
        dated = refl;
        split = new_day-split lt;
        latest = All-append-le ms date hit older;
        full = ground (arith, all_good-append date ms date hit, later);
        within = ground arith;
        run =
            ap (run_of 0) (new_day-split lt)
            ∙ run_of-last (g.init ++ g.d ∷ []) (new_day date hit)
            ∙ ground (
              arith,
              run_spec-after ms date hit older,
              run_before,
              run_of-last g.init g.d,
              later,
            );
      }

  pub add_probe-Grouped :
      last ≤ date → Grouped (ms ++ (date, hit) ∷ []) (add_probe days date hit) date
  add_probe-Grouped le = elim (Bool-cases (g.d.date == date)) [
    | inl same ↦ same_day-Grouped (ground arith)
    | inr differs ↦ new_day-Grouped (ground (arith, g.dated))
  ]

pub first-Grouped :
    (date : ℕ) (hit : Bool) → Grouped ((date, hit) ∷ []) (add_probe [] date hit) date
unfolding new_day add_probe run_spec run_of
first-Grouped date hit = record {
  init = [];
  d = new_day date hit;
  dated = refl;
  split = refl;
  latest = (omega arith, tt);
  full = ground arith;
  within = ground arith;
  run = ground arith;
}
