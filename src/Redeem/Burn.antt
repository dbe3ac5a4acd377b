-- ===== src/Redeem/Burn.antt =====
-- When unused codes are to be invalidated (services/sync-relay/src/redeem-guard.ts).
use teacher_assistant.Base.{
  ℕ, suc, ◌≤◌, ◌≡◌, refl, sym, ap, ◌∙◌, List, [], ◌∷◌, ◌++◌, arith, ltb, length, All, Option-cases,
  length-append, append_assoc, append-nil, inl, inr,
}
use teacher_assistant.Base.Map.{get}
use teacher_assistant.Redeem.{
  burn_after_failures, RedeemGuard, ip_key, begin, release, fail, succeed, recent,
}

-- What a relay does with its guard between two invalidations.
pub data GuardCall : Type 0 where
  begin_call fail_call succeed_call release_call : ℕ → ℕ → GuardCall

unfoldable pub guard_step : RedeemGuard → GuardCall → RedeemGuard
guard_step g (begin_call now ip) = (begin g now ip).0
guard_step g (fail_call now ip) = (fail g now ip).0
guard_step g (succeed_call now ip) = succeed g now ip
guard_step g (release_call now ip) = release g now ip

unfoldable pub guard_run : RedeemGuard → List GuardCall → RedeemGuard
guard_run g [] = g
guard_run g (c ∷ cs) = guard_run (guard_step g c) cs

-- The times of the failures among the calls.
abbrev pub fail_times : List GuardCall → List ℕ
fail_times [] = []
fail_times (fail_call now ip ∷ cs) = now ∷ fail_times cs
fail_times (begin_call now ip ∷ cs) = fail_times cs
fail_times (succeed_call now ip ∷ cs) = fail_times cs
fail_times (release_call now ip ∷ cs) = fail_times cs

recent-append : (xs ys : List ℕ) (at : ℕ) → recent (xs ++ ys) at ≡ recent xs at ++ recent ys at
unfolding recent
recent-append [] ys at = refl
recent-append (x ∷ xs) ys at = ground (arith, recent-append xs ys at)

recent-recent : (xs : List ℕ) (t at : ℕ) → t ≤ at → recent (recent xs t) at ≡ recent xs at
unfolding recent
recent-recent [] t at le = refl
recent-recent (x ∷ xs) t at le = ground (arith, recent-recent xs t at le)

begin-burn : (g : RedeemGuard) (now ip : ℕ) → (begin g now ip).0.burn_failures ≡ g.burn_failures
unfolding begin
begin-burn g now ip = ground arith

succeed-burn : (g : RedeemGuard) (now ip : ℕ) → (succeed g now ip).burn_failures ≡ g.burn_failures
unfolding succeed release
succeed-burn g now ip = elim (Option-cases (get (ip_key ip) (release g now ip).entries)) [
  | inl e ↦ rw (e, succeed) refl
  | inr (x, e) ↦ rw (e, succeed) refl
]

step-recent :
    (g : RedeemGuard) (c : GuardCall) (cs : List GuardCall) (at : ℕ)
    → All (λ t. t ≤ at) (fail_times (c ∷ cs))
    → recent ((guard_step g c).burn_failures ++ fail_times cs) at
      ≡ recent (g.burn_failures ++ fail_times (c ∷ cs)) at
unfolding guard_step fail release
step-recent g (begin_call now ip) cs at h = rw (begin-burn g now ip) refl
step-recent g (succeed_call now ip) cs at h = rw (succeed-burn g now ip) refl
step-recent g (release_call now ip) cs at h = refl
step-recent g (fail_call now ip) cs at (le, h) =
    let pushed = append_assoc (recent g.burn_failures now) (now ∷ []) (fail_times cs) in
    ground (
      arith,
      pushed,
      recent-append (recent g.burn_failures now) (now ∷ fail_times cs) at,
      recent-append g.burn_failures (now ∷ fail_times cs) at,
      recent-recent g.burn_failures now at le,
    )

tail_times :
    (c : GuardCall) (cs : List GuardCall) (at : ℕ)
    → All (λ t. t ≤ at) (fail_times (c ∷ cs))
    → All (λ t. t ≤ at) (fail_times cs)
tail_times (begin_call now ip) cs at h = h
tail_times (succeed_call now ip) cs at h = h
tail_times (release_call now ip) cs at h = h
tail_times (fail_call now ip) cs at h = h.1

run-recent :
    (g : RedeemGuard) (cs : List GuardCall) (at : ℕ)
    → All (λ t. t ≤ at) (fail_times cs)
    → recent (guard_run g cs).burn_failures at ≡ recent (g.burn_failures ++ fail_times cs) at
unfolding guard_run
run-recent g [] at h = ap (λ l. recent l at) (sym (append-nil g.burn_failures))
run-recent g (c ∷ cs) at h =
    run-recent (guard_step g c) cs at (tail_times c cs at h) ∙ step-recent g c cs at h

-- After an invalidation and any calls since, none of whose failures is later than `at`, a failure at
-- `at` asks for the next invalidation exactly if, with it, more than twenty of the failures lie within
-- the 24 hours before it.
pub fail-burn :
    (g : RedeemGuard) (cs : List GuardCall) (at ip : ℕ)
    → g.burn_failures ≡ []
    → All (λ t. t ≤ at) (fail_times cs)
    → (fail (guard_run g cs) at ip).1
      ≡ ltb burn_after_failures (suc (length (recent (fail_times cs) at)))
unfolding fail
fail-burn g cs at ip none_yet h =
    let times : recent (guard_run g cs).burn_failures at ≡ recent (fail_times cs) at =
      run-recent g cs at h ∙ rw none_yet refl in
    rw times (
      ap (ltb burn_after_failures)
        (length-append (recent (fail_times cs) at) (at ∷ []) ∙ omega arith))
