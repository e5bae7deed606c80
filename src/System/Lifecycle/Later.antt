-- ===== src/System/Lifecycle/Later.antt =====
-- Withdrawing, reading one's own registration and saving settings move no event's status
-- (backend/src/registrations/registrations.service.ts and settings/registration-settings.service.ts).
use is212_g5_t.Base.{ℕ, inl, inr, some, none, Option, not, ◌==◌, some_eq}
use is212_g5_t.Schema.{
  Event, Db, AuthenticatedUser, RouteId, uuid, malformed, Refusal, Result, ok, err, find_event,
  registered_count, RegistrationStatus, is_registered, is_waitlisted, Registration,
}
use is212_g5_t.Transaction.{require, gets, writes}
use is212_g5_t.Waitlist.{settle_locked, fill_free_spots}
use is212_g5_t.Registrations.{Body, view_of}
use is212_g5_t.Registrations.Checks.{
  require_attendee-Reads, require_event_id-Reads, require_empty_body-Reads,
}
use is212_g5_t.Registrations.Withdrawing.{
  require_registration_id, find_own, read_status, settle_if_waiting, compare_and_withdraw,
  has_event_started, leave_list, release_place, decide_withdrawal, withdraw_found, withdraw_work,
}
use is212_g5_t.Registrations.Reading.{find_mine_for, find_mine_for-after, find_mine_work}
use is212_g5_t.Registrations.Settings.{
  lift, configurable, to_saved, apply_settings, update_for, update_work,
}
use is212_g5_t.Registrations.Settings.Rules.{SettingsPatch, validate_registration_settings}
use is212_g5_t.Registrations.Settings.Validity.{
  require_coordinator-Reads, require_settings_id-Reads,
}
use is212_g5_t.System.Lifecycle.{
  Advances, Advances-throw_if, Advances-require, Advances-gets, Advances-return, Advances-then,
  Advances-before, Advances-Reads, Advances-writes, Onward, Onward-same,
}
use is212_g5_t.System.Lifecycle.Steps.{
  settle_locked-Onward, fill_free_spots-Onward, compare_and_withdraw-Onward, apply_settings-Onward,
}

require_registration_id-Advances : (id : RouteId) → Advances (require_registration_id id)
require_registration_id-Advances (uuid id) = record { onward = Onward-same }
require_registration_id-Advances malformed = record { onward = Onward-same }

settle_if_waiting-Advances :
    (s : Option RegistrationStatus) (registration_id event_id now : ℕ)
    → Advances (settle_if_waiting s registration_id event_id now)
settle_if_waiting-Advances (some RegistrationStatus.waitlisted) registration_id event_id now =
    Advances-before (writes (settle_locked event_id now))
      (Advances-writes _ (settle_locked-Onward event_id now)) (gets (read_status registration_id))
      (Advances-gets (read_status registration_id))
settle_if_waiting-Advances (some RegistrationStatus.registered) registration_id event_id now =
    record { onward = Onward-same }
settle_if_waiting-Advances (some RegistrationStatus.withdrawn) registration_id event_id now =
    record { onward = Onward-same }
settle_if_waiting-Advances (some RegistrationStatus.removed) registration_id event_id now = record {
  onward = Onward-same;
}
settle_if_waiting-Advances (some RegistrationStatus.cancelled) registration_id event_id now =
    record { onward = Onward-same }
settle_if_waiting-Advances none registration_id event_id now = record { onward = Onward-same }

leave_list-Advances :
    (registration_id uid : ℕ) (event : Event) (now : ℕ)
    → Advances (leave_list registration_id uid event now)
unfolding leave_list
leave_list-Advances registration_id uid event now =
    Advances-before _
      (Advances-throw_if (has_event_started event now) Refusal.event_already_occurred) _
      (Advances-then (writes (compare_and_withdraw is_waitlisted registration_id uid now))
        (Advances-writes _ (compare_and_withdraw-Onward is_waitlisted registration_id uid now)) _
        λ left.
          Advances-then (require left Refusal.already_withdrawn) (Advances-require left _) _
            λ row. Advances-return (ok (view_of row event.event_name none)))

release_place-Advances :
    (registration_id uid event_id : ℕ) (event : Event) (now : ℕ)
    → Advances (release_place registration_id uid event_id event now)
unfolding release_place
release_place-Advances registration_id uid event_id event now =
    Advances-before _
      (Advances-throw_if (has_event_started event now) Refusal.event_already_occurred) _
      (Advances-then (writes (compare_and_withdraw is_registered registration_id uid now))
        (Advances-writes _ (compare_and_withdraw-Onward is_registered registration_id uid now)) _
        λ updated.
          Advances-then (require updated Refusal.already_withdrawn) (Advances-require updated _) _
            λ row.
              Advances-before (writes (fill_free_spots event_id now))
                (Advances-writes _ (fill_free_spots-Onward event_id now)) _
                (Advances-return (ok (view_of row event.event_name none))))

decide_withdrawal-Advances :
    (s : Option RegistrationStatus) (registration_id uid event_id : ℕ) (event : Event) (now : ℕ)
    → Advances (decide_withdrawal s registration_id uid event_id event now)
unfolding decide_withdrawal
decide_withdrawal-Advances (some RegistrationStatus.cancelled) registration_id uid event_id event
      now =
    record { onward = Onward-same }
decide_withdrawal-Advances (some RegistrationStatus.removed) registration_id uid event_id event
      now =
    record { onward = Onward-same }
decide_withdrawal-Advances (some RegistrationStatus.withdrawn) registration_id uid event_id event
      now =
    record { onward = Onward-same }
decide_withdrawal-Advances (some RegistrationStatus.waitlisted) registration_id uid event_id event
      now =
    leave_list-Advances registration_id uid event now
decide_withdrawal-Advances (some RegistrationStatus.registered) registration_id uid event_id event
      now =
    release_place-Advances registration_id uid event_id event now
decide_withdrawal-Advances none registration_id uid event_id event now = record {
  onward = Onward-same;
}

withdraw_found-Advances :
    (registration_id uid : ℕ) (current : Registration) (event : Event) (now : ℕ)
    → Advances (withdraw_found registration_id uid current event now)
unfolding withdraw_found
withdraw_found-Advances registration_id uid current event now =
    Advances-then (gets (read_status registration_id)) (Advances-gets _) _ λ first.
      Advances-then _ (settle_if_waiting-Advances first registration_id current.event_id now) _
        λ s. decide_withdrawal-Advances s registration_id uid current.event_id event now

pub withdraw_work-Advances :
    (identity : Option AuthenticatedUser) (id : RouteId) (body : Body) (now : ℕ)
    → Advances (withdraw_work identity id body now)
unfolding withdraw_work
withdraw_work-Advances identity id body now =
    Advances-then _ (Advances-require identity Refusal.authentication_required) _ λ user.
      Advances-before _ (Advances-Reads _ (require_empty_body-Reads body)) _ (
        Advances-then _ (require_registration_id-Advances id) _ λ registration_id.
          Advances-then (gets (find_own registration_id user.uid)) (Advances-gets _) _ λ found.
            Advances-then _ (Advances-require found Refusal.registration_not_found) _
              λ current. withdraw_found-Advances registration_id user.uid current.0 current.1 now)

find_mine_for-Onward :
    (event_id uid now : ℕ) (db : Db) → Onward db (find_mine_for event_id uid now db).1
find_mine_for-Onward event_id uid now db = elim (find_mine_for-after event_id uid now db) [
  | inl same ↦ rw same (Onward-same db)
  | inr settled_it ↦ rw settled_it (settle_locked-Onward event_id now db)
]

pub find_mine_work-Advances :
    (identity : Option AuthenticatedUser) (id : RouteId) (now : ℕ)
    → Advances (find_mine_work identity id now)
unfolding find_mine_work
find_mine_work-Advances identity id now =
    Advances-then _ (Advances-Reads _ (require_attendee-Reads identity)) _ λ attendee.
      Advances-then _ (Advances-Reads _ (require_event_id-Reads id)) _ λ event_id.
        Advances-writes (find_mine_for event_id attendee.uid now)
          (find_mine_for-Onward event_id attendee.uid now)

lift-Advances : {A : Type 0} (v : Result A) → Advances (lift v)
lift-Advances (ok a) = record { onward = Onward-same }
lift-Advances (err e) = record { onward = Onward-same }

update_for-Advances :
    (event : Event) (event_id uid : ℕ) (parsed : Result (SettingsPatch × ℕ)) (now : ℕ)
    → Advances (update_for event event_id uid parsed now)
unfolding update_for
update_for-Advances event event_id uid parsed now =
    Advances-before _
      (Advances-throw_if (not (some_eq event.coordinator_id uid)) Refusal.settings_forbidden) _
      (Advances-before _
        (Advances-throw_if (not (configurable event.status)) Refusal.not_configurable) _
        (Advances-then (lift parsed) (lift-Advances parsed) _ λ patch.
          Advances-before _
            (Advances-throw_if (not (patch.1 == event.registration_settings_version))
              Refusal.settings_conflict)
            _
            (Advances-before (writes (settle_locked event_id now))
              (Advances-writes _ (settle_locked-Onward event_id now)) _
              (Advances-then (gets (λ db. registered_count event_id db.registrations))
                (Advances-gets _) _
                λ confirmed.
                  Advances-then
                    (lift (
                      validate_registration_settings (to_saved event) patch.0 event.start_date_time
                        confirmed))
                    (lift-Advances _) _
                    λ next.
                      Advances-writes (apply_settings event event_id next confirmed now)
                        (apply_settings-Onward event event_id next confirmed now)))))

pub update_work-Advances :
    (identity : Option AuthenticatedUser) (id : RouteId) (parsed : Result (SettingsPatch × ℕ))
    (now : ℕ)
    → Advances (update_work identity id parsed now)
unfolding update_work
update_work-Advances identity id parsed now =
    Advances-then _ (Advances-Reads _ (require_coordinator-Reads identity)) _ λ user.
      Advances-then _ (Advances-Reads _ (require_settings_id-Reads id)) _ λ event_id.
        Advances-then (gets (λ db. find_event event_id db.events)) (Advances-gets _) _ λ found.
          Advances-then _ (Advances-require found Refusal.event_not_found) _
            λ event. update_for-Advances event event_id user.uid parsed now
