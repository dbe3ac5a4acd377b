-- ===== src/Tests/Relay.antt =====
-- A relay's first days: an owner redeems a code, grants itself two scopes, pairs a member device.
mod Cursors
mod Runs
use teacher_assistant.Base.{ℕ, true, false, List, [], ◌∷◌, Option, none, some, ◌≡◌, refl, arith}
use teacher_assistant.Base.Map.{get, put, remove, keep, has, count, Distinct}
use teacher_assistant.Relay.Types.{
  Blob, owner, member, active, revoked, ScopeGrant, master, period, RedeemResult, last_owner,
  second_master, member_master,
}
use teacher_assistant.Relay.Cursor.{format_cursor, parse_cursor, decimal, is_epoch, same_text}
use teacher_assistant.Relay.Grants.{
  check_grant, check_scopes, check_scope, check_enrollment, write_scopes, write_tags, write_scope,
}
use teacher_assistant.Relay.Store
use teacher_assistant.Relay.Store.{empty, master_tag, device_role, write_grant, enroll}
use teacher_assistant.Relay.Calls.{Call, Moment, Reach, here, next, step}

unfoldable pub relay : Unit {0}
unfolding get put remove keep count check_grant check_scopes check_scope check_enrollment
    write_scopes write_tags master_tag device_role write_grant enroll step Store.revoke
    Store.grant_scopes Store.complete_pairing Store.open_pairing Store.put_pairing_request
    Store.redeem_owner_code Store.issue_owner_code Store.append Store.open_session
    Store.active_owner_count Store.push_blobs Store.is_authorized Store.take_pairing_grant
relay = tt

abbrev pub at_start : Moment
at_start = record { now = 0; store = empty }

abbrev pub owner_scopes : List ScopeGrant
owner_scopes = record { tag = 10; kind = master } ∷ record { tag = 11; kind = period } ∷ []

abbrev pub period_only : List ScopeGrant
period_only = record { tag = 11; kind = period } ∷ []

-- Key 1 redeems code 7, and is granted the master scope 10 and the class period 11.
abbrev pub set_up : Moment
set_up = record {
  now = 3;
  store =
      step 3 (Call.grant_scopes 1 owner_scopes)
        (step 2 (Call.redeem_owner_code 7 1) (step 1 (Call.issue_owner_code 7 1_000) empty));
}

pub set_up-Reach : Reach at_start set_up
set_up-Reach =
    next
      (next (next here 1 (Call.issue_owner_code 7 1_000) (omega arith)) 2
        (Call.redeem_owner_code 7 1) (omega arith))
      3 (Call.grant_scopes 1 owner_scopes) (omega arith)

-- Key 1 opens session 50, key 2 puts its request, and key 1 completes the pairing.
abbrev pub requested : Moment
requested = record {
  now = 5;
  store =
      step 5 (Call.put_pairing_request 50 2 "request")
        (step 4 (Call.open_pairing 50 1) set_up.store);
}

abbrev pub paired : Moment
paired = record {
  now = 6;
  store = step 6 (Call.complete_pairing 50 1 2 member period_only "grant") requested.store;
}

pub paired-Reach : Reach set_up paired
paired-Reach =
    next
      (next (next here 4 (Call.open_pairing 50 1) (omega arith)) 5
        (Call.put_pairing_request 50 2 "request") (omega arith))
      6 (Call.complete_pairing 50 1 2 member period_only "grant") (omega arith)

abbrev revoked_later : Moment
revoked_later = record { now = 7; store = (Store.revoke paired.store 2).0 }

relay_tests :
    (Store.is_authorized paired.store 2 11 ≡ true)
    × (Store.is_authorized paired.store 2 10 ≡ false)
    × ((Store.take_pairing_grant paired.store 7 50 2).1 ≡ some "grant")
    × ((Store.redeem_owner_code paired.store 7 7 3).1 ≡ RedeemResult.refused)
    × ((Store.revoke paired.store 1).1 ≡ last_owner)
    × (Store.is_authorized revoked_later.store 2 11 ≡ false)
    × ((Store.grant_scopes paired.store 2 owner_scopes).1 ≡ member_master)
    × ((Store.grant_scopes paired.store 1 (record { tag = 12; kind = master } ∷ [])).1
        ≡ second_master)
unfolding relay
relay_tests = (refl, refl, refl, refl, refl, refl, refl, refl)
