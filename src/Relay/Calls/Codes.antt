-- ===== src/Relay/Calls/Codes.antt =====
-- An owner code is good for one device (services/sync-relay/src/store.ts).
use teacher_assistant.Base.{
  ℕ, ◌≡◌, inl, inr, ◌≢◌, Bool, true, false, ◌||◌, none, some, arith, leb, ltb, Bool-cases,
  Option-cases,
}
use teacher_assistant.Base.Map.{
  Map, get, put, keep, Distinct, get-put, get-keep, put-Distinct, keep-Distinct,
}
use teacher_assistant.Relay.Types.{PublicKey, refused, StoredCode, RelayStore}
use teacher_assistant.Relay.Store
use teacher_assistant.Relay.Store.Cases.{
  used_code, grant_scopes_cases, retire_scope_cases, redeem_cases, revoke_cases, open_pairing_cases,
  put_pairing_request_cases, enroll_cases, complete_pairing_cases, take_pairing_grant_cases,
}
use teacher_assistant.Relay.Calls.{Call, step, Moment, Reach, here, next}

abbrev used_at : ℕ → Map StoredCode → Bool
used_at hash m = elim (get hash m) [ none ↦ false | some c ↦ c.used ]

abbrev fresh_code : ℕ → StoredCode
fresh_code expires_at = record { expires_at = expires_at; used = false }

-- The codes change in three ways: one is issued under a new hash, one is marked used, or some unused
-- ones are deleted.
module _ {ℓ} (P : Map StoredCode → Type ℓ) (s : RelayStore) (unchanged : P s.codes)
    (issued : (hash expires_at : ℕ)
      → get hash s.codes ≡ none
      → P (put hash (fresh_code expires_at) s.codes))
    (spent : (hash : ℕ) (c : StoredCode)
      → get hash s.codes ≡ some c
      → P (put hash (used_code c) s.codes))
    (swept : (q : StoredCode → Bool) → P (keep (λ hash c. c.used || q c) s.codes))
    (cleared : P (keep (λ hash c. c.used) s.codes)) where
  issue_codes : (hash expires_at : ℕ) → P (Store.issue_owner_code s hash expires_at).0.codes
  unfolding Store.issue_owner_code
  issue_codes hash expires_at = elim (Option-cases (get hash s.codes)) [
    | inl e ↦ rw e (issued hash expires_at e)
    | inr (c, e) ↦ rw e unchanged
  ]

  pub step_codes : (now : ℕ) (c : Call) → P (step now c s).codes
  unfolding step Store.write_grant Store.append Store.invalidate_owner_codes Store.put_recovery_wrap
      Store.sweep_expired Store.rotate_epochs
  step_codes now (Call.append fresh doc t blobs) =
      let e : (Store.append s fresh doc t blobs).0.codes ≡ s.codes = ground arith in rw e unchanged
  step_codes now (Call.issue_owner_code hash expires_at) = issue_codes hash expires_at
  step_codes now (Call.redeem_owner_code hash key) =
      redeem_cases (λ r. P r.codes) s unchanged now hash key
        λ c found unused live fresh. spent hash c found
  step_codes now Call.invalidate_owner_codes = cleared
  step_codes now (Call.grant_scopes key gs) =
      grant_scopes_cases (λ r. P r.codes) s unchanged key gs λ e. unchanged
  step_codes now (Call.retire_scope t) =
      retire_scope_cases (λ r. P r.codes) s unchanged t λ x e k. unchanged
  step_codes now (Call.revoke key) =
      revoke_cases (λ r. P r.codes) s unchanged key λ d e live others. unchanged
  step_codes now (Call.open_pairing sid opener) =
      open_pairing_cases (λ r. P r.codes) s unchanged now sid opener λ a b c. unchanged
  step_codes now (Call.put_pairing_request sid signer blob) =
      put_pairing_request_cases (λ r. P r.codes) s unchanged now sid signer blob λ p a b. unchanged
  step_codes now (Call.complete_pairing sid opener key role gs blob) =
      complete_pairing_cases (λ r. P r.codes) s unchanged now sid opener key role gs blob
        λ p r row a b e.
          enroll_cases (λ r'. P r'.codes) s unchanged sid p key role gs blob row
            λ granted. unchanged
  step_codes now (Call.take_pairing_grant sid signer) =
      take_pairing_grant_cases (λ r. P r.codes) s unchanged now sid signer unchanged
  step_codes now (Call.put_recovery_wrap blob) = unchanged
  step_codes now Call.sweep_expired = swept (λ c. ltb now c.expires_at)
  step_codes now (Call.rotate_epochs fresh) = unchanged

-- The hashes are distinct, and this one's code is used.
abbrev Spent : ℕ → Map StoredCode → Type 0
Spent hash m = Distinct m × (used_at hash m ≡ true)

step-Spent :
    (now : ℕ) (c : Call) (s : RelayStore) (hash : ℕ)
    → Spent hash s.codes
    → Spent hash (step now c s).codes
step-Spent now c s hash (d, u) =
    step_codes (Spent hash) s (d, u)
      (λ j expires_at e. (
        put-Distinct j (fresh_code expires_at) s.codes d,
        ground (arith, get-put j hash (fresh_code expires_at) s.codes),
      ))
      (λ j x e. (
        put-Distinct j (used_code x) s.codes d,
        ground (arith, get-put j hash (used_code x) s.codes),
      ))
      (λ q. (
        keep-Distinct (λ j x. x.used || q x) s.codes d,
        ground (arith, get-keep (λ j x. x.used || q x) hash s.codes d),
      ))
      (
        keep-Distinct (λ j x. x.used) s.codes d,
        ground (arith, get-keep (λ j x. x.used) hash s.codes d),
      )
      now c

Reach-Spent :
    {m n : Moment} (hash : ℕ) → Reach m n → Spent hash m.store.codes → Spent hash n.store.codes
Reach-Spent hash here h = h
Reach-Spent hash (next r now c later) h = step-Spent now c _ hash (Reach-Spent hash r h)

redeem-Spent :
    (s : RelayStore) (now hash : ℕ) (key : PublicKey)
    → Distinct s.codes
    → (Store.redeem_owner_code s now hash key).1 ≢ refused
    → Spent hash (Store.redeem_owner_code s now hash key).0.codes
unfolding Store.redeem_owner_code
redeem-Spent s now hash key d h = elim (Option-cases (get hash s.codes)) [
  | inl e ↦ absurd (h (rw e))
  | inr (c, e) ↦ elim (Bool-cases (c.used || leb c.expires_at now)) [
    | inl k ↦ absurd (h (rw (e, k)))
    | inr k ↦ elim (Option-cases (get key s.devices)) [
      | inr (x, known) ↦ absurd (h (rw (e, k, known)))
      | inl fresh ↦
          rw (e, k, fresh)
            (
              put-Distinct hash (used_code c) s.codes d,
              ground (arith, get-put hash hash (used_code c) s.codes),
            )
    ]
  ]
]

-- A code that was redeemed is refused ever after, whatever key redeems it and whatever calls come in
-- between.
pub redeem_once :
    (s : RelayStore) (now hash : ℕ) (key : PublicKey) {n : Moment}
    → Distinct s.codes
    → (Store.redeem_owner_code s now hash key).1 ≢ refused
    → Reach (record { now = now; store = (Store.redeem_owner_code s now hash key).0 }) n
    → (at : ℕ) (other : PublicKey)
    → Store.redeem_owner_code n.store at hash other ≡ (n.store, refused)
unfolding Store.redeem_owner_code
redeem_once s now hash key {n} d h r at other =
    let spent = Reach-Spent hash r (redeem-Spent s now hash key d h) in ground (arith, spent)
