-- ===== src/System/Lifecycle/Steps.antt =====
-- The writes of the registration calls leave the events table as it is, or change settings of an event
-- (backend/src/registrations).
use native.Mathlib.Decide.{ℕ_discrete}
use is212_g5_t.Base.{
  ℕ, zero, suc, String, ◌≡◌, refl, ap, ◌∙◌, inl, inr, Bool, ◌-◌, ◌==◌, find_by, Bool-cases, ltb,
  Option-cases,
}
use is212_g5_t.Schema.{
  Event, Registration, RegistrationStatus, Account, Db, find_event, registered_count, has_key,
}
use is212_g5_t.Waitlist.{settle_locked, promote_entry, promote_loop, fill_free_spots, first_waiting}
use is212_g5_t.Waitlist.Settling.{settle_locked-events}
use is212_g5_t.Registrations.{Env}
use is212_g5_t.Registrations.Upsert.{upsert}
use is212_g5_t.Registrations.Registering.{
  RegistrationInput, save_registration, reactivates, reactivate, new_registration,
}
use is212_g5_t.Registrations.Joining.{save_waiting, waiting_entry, rejoins, rejoin}
use is212_g5_t.Registrations.Withdrawing.{compare_and_withdraw}
use is212_g5_t.Registrations.Settings.{apply_settings, store_settings, configure}
use is212_g5_t.Registrations.Settings.Rules.{SavedSettings}
use is212_g5_t.Registrations.Settings.Validity.{
  find_event-configure_self, find_event-configure_other,
}
use is212_g5_t.System.Lifecycle.{Onward, Onward-kept, Onward-same, Onward-trans, here}

upsert-events :
    (row : Registration) (revives : RegistrationStatus → Bool)
    (revive : Registration → Registration) (db : Db)
    → (upsert row revives revive db).1.events ≡ db.events
unfolding upsert
upsert-events row revives revive db =
    elim (Option-cases (find_by (has_key row.event_id row.attendee_id) db.registrations)) [
      | inl fresh ↦ rw fresh refl
      | inr (old, conflict) ↦ elim (Bool-cases (revives old.status)) [
        | inl yes_it ↦ rw (conflict, yes_it) refl
        | inr not_it ↦ rw (conflict, not_it) refl
      ]
    ]

pub save_registration-Onward :
    (event_id attendee_id : ℕ) (input : RegistrationInput) (env : Env) (db : Db)
    → Onward db (save_registration event_id attendee_id input env db).1
unfolding save_registration
save_registration-Onward event_id attendee_id input env db =
    Onward-kept db (save_registration event_id attendee_id input env db).1 (
      upsert-events (new_registration event_id attendee_id input env) reactivates
        (reactivate input env) db)

pub save_waiting-Onward :
    (event_id attendee_id : ℕ) (env : Env) (db : Db)
    → Onward db (save_waiting event_id attendee_id env db).1
unfolding save_waiting
save_waiting-Onward event_id attendee_id env db =
    elim (Option-cases (find_by (λ (u : Account). u.id == attendee_id) db.users)) [
      | inl gone ↦ rw gone (Onward-same db)
      | inr (user, known) ↦ rw known (λ k e found. (
        e,
        ap (find_event k) (
              upsert-events (waiting_entry event_id user db.waitlist_seq env) rejoins
                (rejoin db.waitlist_seq env) db)
            ∙ found,
        here e.status,
      ))
    ]

promote_loop-events :
    (event_id : ℕ) (name : String) (now free : ℕ) (db : Db)
    → (promote_loop event_id name now free db).1.events ≡ db.events
unfolding promote_loop promote_entry
promote_loop-events event_id name now zero db = refl
promote_loop-events event_id name now (suc free) db =
    elim (Option-cases (first_waiting event_id db.registrations)) [
      | inl nobody ↦ rw (nobody, promote_loop) refl
      | inr (entry, first) ↦
          rw (first, promote_loop)
            (promote_loop-events event_id name now free (promote_entry now name entry db))
    ]

fill_free_spots-events :
    (event_id now : ℕ) (db : Db) → (fill_free_spots event_id now db).1.events ≡ db.events
unfolding fill_free_spots settle_locked
fill_free_spots-events event_id now db =
    let db₁ : Db = (settle_locked event_id now db).1 in
    elim (Option-cases (find_event event_id db₁.events)) [
      | inl gone ↦ rw gone (settle_locked-events event_id now db)
      | inr (e, found) ↦ rw found (
          promote_loop-events event_id e.event_name now
            (e.registration_limit - registered_count event_id db₁.registrations) db₁
          ∙ settle_locked-events event_id now db)
    ]

pub settle_locked-Onward :
    (event_id now : ℕ) (db : Db) → Onward db (settle_locked event_id now db).1
settle_locked-Onward event_id now db =
    Onward-kept db (settle_locked event_id now db).1 (settle_locked-events event_id now db)

pub fill_free_spots-Onward :
    (event_id now : ℕ) (db : Db) → Onward db (fill_free_spots event_id now db).1
fill_free_spots-Onward event_id now db =
    Onward-kept db (fill_free_spots event_id now db).1 (fill_free_spots-events event_id now db)

pub compare_and_withdraw-Onward :
    (seen : RegistrationStatus → Bool) (registration_id uid now : ℕ) (db : Db)
    → Onward db (compare_and_withdraw seen registration_id uid now db).1
unfolding compare_and_withdraw
compare_and_withdraw-Onward seen registration_id uid now db =
    Onward-kept db (compare_and_withdraw seen registration_id uid now db).1 refl

-- New settings leave each event's status.
store_settings-Onward :
    (event_id : ℕ) (next : SavedSettings) (now : ℕ) (db : Db)
    → Onward db (store_settings event_id next now db)
store_settings-Onward event_id next now db k e found = elim (ℕ_discrete k event_id) [
  | yes h ↦
      let at = rw h at found in
      (
        configure next now e,
        rw h (find_event-configure_self event_id next now db.events e at),
        here e.status,
      )
  | no ne ↦ (e, find_event-configure_other event_id next now k db.events ne ∙ found, here e.status)
]

pub apply_settings-Onward :
    (event : Event) (event_id : ℕ) (next : SavedSettings) (confirmed now : ℕ) (db : Db)
    → Onward db (apply_settings event event_id next confirmed now db).1
unfolding apply_settings
apply_settings-Onward event event_id next confirmed now db =
    let stored = store_settings event_id next now db in
    let db₁ : Db = (settle_locked event_id now stored).1 in
    let p =
      Onward-trans db stored db₁ (store_settings-Onward event_id next now db)
        (settle_locked-Onward event_id now stored) in
    elim (Bool-cases (ltb event.registration_limit next.capacity)) [
      | inl more ↦ rw more (
          Onward-trans db db₁ (fill_free_spots event_id now db₁).1 p
            (fill_free_spots-Onward event_id now db₁))
      | inr no_more ↦ rw no_more p
    ]
