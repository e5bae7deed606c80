-- ===== src/Examples/Success.antt =====
-- Calls that succeed, at a concrete database.
use is212_g5_t.Base.{◌+◌, ◌≡◌, refl, true, none, some, [], ◌∷◌, ◌++◌, arith, length, Has}
use is212_g5_t.Schema.{
  Registration, RegistrationStatus, uuid, ok, registered_count, waitlisted_count, waits,
}
use is212_g5_t.Waitlist.{event_due, row_lt}
use is212_g5_t.Registrations.{absent, view_of, is_registration_open, registration_window_state}
use is212_g5_t.Registrations.Registering.{new_registration, register}
use is212_g5_t.Registrations.Registering.Success.{register_lem}
use is212_g5_t.Registrations.Joining.{waiting_entry, join_waitlist}
use is212_g5_t.Registrations.Joining.Success.{joined, join_waitlist_lem}
use is212_g5_t.Registrations.Withdrawing.{has_event_started, mark_withdrawn, withdraw}
use is212_g5_t.Registrations.Withdrawing.HandOver.{withdraw_hands_over}
use is212_g5_t.Examples.Sample.{
  sample, sample-Valid, empty_sample, talk, place, account, attendee_of, env, input,
}

register_lem_example :
    let row = new_registration 1 55 input env in
    let out = register (some (attendee_of 55)) (uuid 1) (ok input) env empty_sample in
    (out ≡ (ok (view_of row "Talk" none), record empty_sample { registrations = [] ++ (row ∷ []) }))
    × (registered_count 1 out.1.registrations ≡ registered_count 1 [] + 1)
unfolding is_registration_open registration_window_state
register_lem_example =
    register_lem (attendee_of 55) 1 input env empty_sample talk refl refl refl refl (ground arith)

all_before :
    (o : Registration)
    → Has o sample.registrations
    → waits 1 o ≡ true
    → row_lt o (waiting_entry 1 (account 55) 3 env) ≡ true
unfolding row_lt
all_before o m w = ground arith

join_waitlist_lem_example : join_waitlist (some (attendee_of 55)) (uuid 1) absent env sample ≡ (
  ok (record {
    registration_id = 9;
    status = RegistrationStatus.waitlisted;
    position = some (waitlisted_count 1 sample.registrations + 1);
    event_name = "Talk";
  }),
  joined 1 (account 55) env sample,
)
unfolding is_registration_open registration_window_state
join_waitlist_lem_example =
    join_waitlist_lem (attendee_of 55) 1 env sample talk (account 55) refl refl refl refl refl
      (ground arith) refl all_before

withdraw_hands_over_example :
    let (result, db') = withdraw (some (attendee_of 50)) (uuid 5) absent 100 sample in
    (result ≡ ok (view_of (mark_withdrawn 100 (place 5 50)) "Talk" none))
    × (registered_count 1 db'.registrations ≡ registered_count 1 sample.registrations)
    × (waitlisted_count 1 db'.registrations + 1 ≡ waitlisted_count 1 sample.registrations)
    × (length db'.notifications ≡ 0 + 1)
unfolding has_event_started event_due
withdraw_hands_over_example =
    withdraw_hands_over (attendee_of 50) 5 100 sample (place 5 50) talk sample-Valid refl refl refl
      refl refl (ground arith)
