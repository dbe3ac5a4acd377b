-- ===== src/Service/App/Runs.antt =====
-- What a request does to the store is a run of the store's own calls (services/sync-relay/src/app.ts
-- over store.ts).
use Prim.Native.String.{String}
use text.Mathlib.Text.{◌==◌ as str_eq}
use teacher_assistant.Base.{ℕ, Bool, true, false, List, Option, none, some, arith, if◌then◌else◌}
use teacher_assistant.Base.Texts.{number_of}
use teacher_assistant.Relay.Types.{Blob, Text, RelayStore, refused, first, recovery}
use teacher_assistant.Relay.Store
use teacher_assistant.Relay.Calls.{Call, step, Moment, Reach, here, next}
use teacher_assistant.Redeem
use teacher_assistant.Redeem.{RedeemGuard}
use teacher_assistant.Service.Platform.{Bytes, Platform}
use teacher_assistant.Service.Bodies.{
  Parsed, malformed, too_large, parsed, parse_list_body, parse_grant_body, parse_revoke_body,
  parse_retire_body, parse_recovery_wrap_body, parse_pairing_sid_body, parse_pairing_request_body,
  parse_pairing_grant_body, parse_redeem_body, parse_push_updates,
}
use teacher_assistant.Service.Requests.{Request, VerifiedRequest, verify_request}
use teacher_assistant.Service.OwnerCode.{owner_code_hash}
use teacher_assistant.Service.Control.{
  Response, ControlRoute, list, grant_scopes, revoke, retire_scope, recovery_wrap, pairing_open,
  request_put, request_get, grant_put, grant_get, with_body, with_parsed, handle_control,
}
use teacher_assistant.Service.App.{
  Service, burn_codes, reserved_control_scope, answer_pull, answer_push, answer_control, may_see,
  may_control, pull, push, push_updates, redeem_hash, redeem_code, attempt_redeem,
  count_redeem_failure, Attempt, body_malformed, outcome, answer_redeem, redeem, control, Endpoint,
  health, pull_doc, push_doc, redeem_code_route, control_route, serve,
}

abbrev pub at : ℕ → RelayStore → Moment
at now s = record { now = now; store = s }

-- Any number of calls at one time.
abbrev Run : ℕ → RelayStore → RelayStore → Type 0
Run now s s' = Reach (at now s) (at now s')

call : {now : ℕ} {s s' : RelayStore} (c : Call) → Run now s s' → Run now s (step now c s')
call {now} c r = next r now c (omega arith)

module _ (now : ℕ) (s₀ s : RelayStore) (r : Run now s₀ s) where
  with_body-Run :
      {A : Type 0} (o : Option A) (handle : A → RelayStore × Response)
      → ((body : A) → Run now s₀ (handle body).0)
      → Run now s₀ (with_body s o handle).0
  with_body-Run none handle h = r
  with_body-Run (some body) handle h = h body

  with_parsed-Run :
      {A : Type 0} (o : Parsed A) (handle : A → RelayStore × Response)
      → ((body : A) → Run now s₀ (handle body).0)
      → Run now s₀ (with_parsed s o handle).0
  with_parsed-Run malformed handle h = r
  with_parsed-Run too_large handle h = r
  with_parsed-Run (parsed body) handle h = h body

  handle_control-Run :
      (P : Platform) (route : ControlRoute) (signer : ℕ) (raw : Bytes)
      → Run now s₀ (handle_control P route s now signer raw).0
  unfolding handle_control step
  handle_control-Run P list signer raw = with_body-Run (parse_list_body P raw) _ (λ b. r)
  handle_control-Run P grant_scopes signer raw =
      with_body-Run (parse_grant_body P raw) _
        (λ b. call (Call.grant_scopes (number_of b.device) b.scopes) r)
  handle_control-Run P revoke signer raw =
      with_body-Run (parse_revoke_body P raw) _ (λ b. call (Call.revoke (number_of b)) r)
  handle_control-Run P retire_scope signer raw =
      with_body-Run (parse_retire_body P raw) _ (λ b. call (Call.retire_scope (number_of b)) r)
  handle_control-Run P recovery_wrap signer raw =
      with_parsed-Run (parse_recovery_wrap_body P raw) _ (λ b. call (Call.put_recovery_wrap b) r)
  handle_control-Run P pairing_open signer raw =
      with_body-Run (parse_pairing_sid_body P raw) _
        (λ b. call (Call.open_pairing (number_of b) signer) r)
  handle_control-Run P request_put signer raw =
      with_parsed-Run (parse_pairing_request_body P raw) _
        (λ b. call (Call.put_pairing_request (number_of b.sid) signer b.blob) r)
  handle_control-Run P request_get signer raw =
      with_body-Run (parse_pairing_sid_body P raw) _ (λ b. r)
  handle_control-Run P grant_put signer raw =
      with_parsed-Run (parse_pairing_grant_body P raw) _ (λ b.
        call
          (Call.complete_pairing (number_of b.sid) signer (number_of b.device) b.role b.scopes
            b.blob)
          r)
  handle_control-Run P grant_get signer raw =
      with_body-Run (parse_pairing_sid_body P raw) _
        (λ b. call (Call.take_pairing_grant (number_of b) signer) r)

if-Run :
    {now : ℕ} {s : RelayStore} (b : Bool) (x y : Service × Response)
    → Run now s x.0.store
    → Run now s y.0.store
    → Run now s (if b then x else y).0.store
if-Run true x y h k = h
if-Run false x y h k = k

answer_control-Run :
    (P : Platform) (a : Service) (now : ℕ) (route : ControlRoute) (body : Bytes)
    (v : Option VerifiedRequest)
    → Run now a.store (answer_control P a now route body v).0.store
unfolding step
answer_control-Run P a now route body none = here
answer_control-Run P a now route body (some v) =
    if-Run (may_control a.store route v) _ _
      (handle_control-Run now a.store (Store.sweep_expired a.store now)
        (call Call.sweep_expired here) P route (number_of v.device) body)
      here

answer_pull-Run :
    (a : Service) (now : ℕ) (doc : String) (since : Option String) (v : Option VerifiedRequest)
    → Run now a.store (answer_pull a doc since v).0.store
answer_pull-Run a now doc since none = here
answer_pull-Run a now doc since (some v) = if-Run (may_see a.store v doc) _ _ here here

push_updates-Run :
    (a : Service) (now : ℕ) (fresh : Text) (v : VerifiedRequest) (doc : String)
    (updates : Option (List Blob))
    → Run now a.store (push_updates a fresh v doc updates).0.store
unfolding step
push_updates-Run a now fresh v doc none = here
push_updates-Run a now fresh v doc (some updates) =
    call (Call.append fresh (number_of doc) (number_of v.scope) updates) here

answer_push-Run :
    (P : Platform) (a : Service) (now : ℕ) (fresh : Text) (doc : String) (body : Bytes)
    (v : Option VerifiedRequest)
    → Run now a.store (answer_push P a fresh doc body v).0.store
answer_push-Run P a now fresh doc body none = here
answer_push-Run P a now fresh doc body (some v) =
    if-Run (may_see a.store v doc) _ _
      (push_updates-Run a now fresh v doc (parse_push_updates P body)) here

redeem_code-Run :
    (P : Platform) (s : RelayStore) (now : ℕ) (v : VerifiedRequest) (code : Option String)
    → Run now s (redeem_code P s now v code).0
unfolding step
redeem_code-Run P s now v none = here
redeem_code-Run P s now v (some code) = go (owner_code_hash P code)
  where
    go : (hash : Option ℕ) → Run now s (redeem_hash (Store.sweep_expired s now) now v hash).0
    go none = call Call.sweep_expired here
    go (some hash) =
        call (Call.redeem_owner_code hash (number_of v.device)) (call Call.sweep_expired here)

attempt_redeem-Run :
    (P : Platform) (s : RelayStore) (now : ℕ) (v : Option VerifiedRequest) (body : Bytes)
    → Run now s (attempt_redeem P s now v body).0
unfolding attempt_redeem
attempt_redeem-Run P s now none body = here
attempt_redeem-Run P s now (some v) body = go (str_eq v.scope reserved_control_scope)
  where
    go :
        (b : Bool)
        → Run now s
            (if b then redeem_code P s now v (parse_redeem_body P body) else (s, outcome refused)).0
    go true = redeem_code-Run P s now v (parse_redeem_body P body)
    go false = here

burn_codes-Run :
    (s : RelayStore) (a : Service) (now : ℕ) (g : RedeemGuard × Bool)
    → Run now s a.store
    → Run now s (burn_codes a g).store
unfolding step
burn_codes-Run s a now (guard, true) r = call Call.invalidate_owner_codes r
burn_codes-Run s a now (guard, false) r = r

answer_redeem-Run :
    (s : RelayStore) (a : Service) (now ip : ℕ) (attempt : Attempt)
    → Run now s a.store
    → Run now s (answer_redeem a now ip attempt).0.store
unfolding count_redeem_failure
answer_redeem-Run s a now ip body_malformed r = r
answer_redeem-Run s a now ip (outcome refused) r =
    burn_codes-Run s a now (Redeem.fail a.guard now ip) r
answer_redeem-Run s a now ip (outcome first) r = r
answer_redeem-Run s a now ip (outcome recovery) r = r

redeem-Run :
    (P : Platform) (a : Service) (now : ℕ) (req : Request)
    → Run now a.store (redeem P a now req).0.store
unfolding redeem
redeem-Run P a now req =
    if-Run (Redeem.begin a.guard now req.ip).1 _ _
      (answer_redeem-Run a.store _ now req.ip
        (attempt_redeem P a.store now (verify_request P a.nonces now req).1 req.body).1
        (attempt_redeem-Run P a.store now (verify_request P a.nonces now req).1 req.body))
      here

-- Whatever the request, the store it leaves is one that a run of the store's own calls, all at the
-- time of the request, reaches from the store before it: the routes change the store by its methods
-- alone.
pub serve-Reach :
    (P : Platform) (a : Service) (now : ℕ) (e : Endpoint) (req : Request)
    → Reach
        (record { now = now; store = a.store })
        (record { now = now; store = (serve P a now e req).0.store })
unfolding serve pull push control
serve-Reach P a now health req = here
serve-Reach P a now (pull_doc doc since) req =
    answer_pull-Run _ now doc since (verify_request P a.nonces now req).1
serve-Reach P a now (push_doc doc fresh) req =
    answer_push-Run P _ now fresh doc req.body (verify_request P a.nonces now req).1
serve-Reach P a now redeem_code_route req = redeem-Run P a now req
serve-Reach P a now (control_route route) req =
    answer_control-Run P _ now route req.body (verify_request P a.nonces now req).1
