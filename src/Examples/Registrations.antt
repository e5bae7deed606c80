-- ===== src/Examples/Registrations.antt =====
-- The registration calls at a concrete database.
use is212_g5_t.Base.{ℕ, ◌≡◌, ◌≤◌, ◌<◌, refl, true, none, some}
use is212_g5_t.Schema.{uuid, ok}
use is212_g5_t.Registrations.{absent}
use is212_g5_t.Registrations.Registering.{register}
use is212_g5_t.Registrations.Registering.Outcomes.{register-Valid}
use is212_g5_t.Registrations.Joining.{join_waitlist}
use is212_g5_t.Registrations.Joining.Outcomes.{join_waitlist-Valid}
use is212_g5_t.Registrations.Withdrawing.{withdraw}
use is212_g5_t.Registrations.Withdrawing.Validity.{withdraw-Valid}
use is212_g5_t.Registrations.Settings.{update}
use is212_g5_t.Registrations.Settings.Validity.{update-Valid}
use is212_g5_t.Registrations.Settings.Rules.{
  SavedSettings, SettingsPatch, whole, max_registration_capacity, validate_registration_settings,
  decide_settings, validate_registration_settings_sound,
}
use is212_g5_t.Registrations.Invariant.{Valid}
use is212_g5_t.Examples.Sample.{
  sample, sample-Valid, empty_sample, empty_sample-Valid, attendee_of, coordinator, env, input,
}

register-Valid_example :
    Valid (register (some (attendee_of 55)) (uuid 1) (ok input) env empty_sample).1
register-Valid_example =
    register-Valid (some (attendee_of 55)) (uuid 1) (ok input) env empty_sample empty_sample-Valid
      refl

join_waitlist-Valid_example :
    Valid (join_waitlist (some (attendee_of 55)) (uuid 1) absent env sample).1
join_waitlist-Valid_example =
    join_waitlist-Valid (some (attendee_of 55)) (uuid 1) absent env sample sample-Valid refl

withdraw-Valid_example : Valid (withdraw (some (attendee_of 50)) (uuid 5) absent 100 sample).1
withdraw-Valid_example =
    withdraw-Valid (some (attendee_of 50)) (uuid 5) absent 100 sample sample-Valid

abbrev larger : SettingsPatch
larger = record {
  registration_enabled = none;
  opens_at = none;
  closes_at = some 950;
  capacity = some (whole 3);
}

update-Valid_example : Valid (update (some coordinator) (uuid 1) (ok (larger, 1)) 100 sample).1
update-Valid_example =
    update-Valid (some coordinator) (uuid 1) (ok (larger, 1)) 100 sample sample-Valid

abbrev before : SavedSettings
before = record {
  registration_enabled = true;
  opens_at = some 10;
  closes_at = some 900;
  capacity = 2;
}

abbrev after : SavedSettings
after = record before { closes_at = some 950; capacity = 3 }

validate_registration_settings_sound_example :
    (1 ≤ 3)
    × (3 ≤ max_registration_capacity)
    × (2 ≤ 3)
    × (true ≡ true → (true ≡ true) × (true ≡ true))
    × (true ≡ true
        → (opens closes : ℕ) → some 10 ≡ some opens
        → some 950 ≡ some closes
        → (opens < closes) × (closes ≤ 1000))
unfolding validate_registration_settings decide_settings
validate_registration_settings_sound_example =
    validate_registration_settings_sound before larger 1000 2 after refl
