-- ===== src/Registrations/Settings.antt =====
-- RegistrationSettingsService.update (backend/src/registrations/settings/registration-settings.service.ts)
-- and its rules (registration-settings.validation.ts).
pub mod Rules
pub mod Validity
use is212_g5_t.Base.{
  ℕ, suc, ◌+◌, Bool, true, false, not, Option, none, some, ◌==◌, ltb, if◌then◌else◌, some_eq, any,
  update_where,
}
use is212_g5_t.Schema.{
  Event, EventStatus, Db, AuthenticatedUser, RouteId, uuid, malformed, Refusal, Result, ok, err,
  is_coordinator, find_event, registered_count,
}
use is212_g5_t.Transaction.{
  M, ◌>>=◌, ◌>>◌, return, throw, throw_if, gets, writes, require, transaction,
}
use is212_g5_t.Waitlist.{settle_locked, fill_free_spots}
use Rules.{SavedSettings, SettingsPatch, validate_registration_settings}

abbrev pub require_coordinator : Option AuthenticatedUser → M AuthenticatedUser
require_coordinator none = throw Refusal.authentication_required
require_coordinator (some user) =
    if any is_coordinator user.roles then return user else throw Refusal.not_coordinator

abbrev pub require_settings_id : RouteId → M ℕ
require_settings_id (uuid id) = return id
require_settings_id malformed = throw Refusal.event_not_found

abbrev pub lift : {A : Type 0} → Result A → M A
lift (ok a) = return a
lift (err e) = throw e

-- CONFIGURABLE_STATUSES.
abbrev pub configurable : EventStatus → Bool
configurable EventStatus.approved = true
configurable EventStatus.planning = true
configurable EventStatus.confirmed = true
configurable _ = false

abbrev pub to_saved : Event → SavedSettings
to_saved e = record {
  registration_enabled = e.registration_enabled;
  opens_at = e.registration_opens_at;
  closes_at = e.registration_closes_at;
  capacity = e.registration_limit;
}

-- UPDATE events SET ... WHERE id.
abbrev pub configure : SavedSettings → ℕ → Event → Event
configure next now e = record e {
  registration_enabled = next.registration_enabled;
  registration_opens_at = next.opens_at;
  registration_closes_at = next.closes_at;
  registration_limit = next.capacity;
  registration_settings_version = suc e.registration_settings_version;
  updated_at = now;
}

pub record SettingsResponse : Type 0 where
  pub settings : SavedSettings
  pub confirmed_count : ℕ
  pub version : ℕ

abbrev pub store_settings : ℕ → SavedSettings → ℕ → Db → Db
store_settings event_id next now db = record db {
  events = update_where (λ e. e.id == event_id) (configure next now) db.events;
}

-- The new window is settled; new places, if any, go to the earliest waiting entries.
unfoldable pub apply_settings : Event → ℕ → SavedSettings → ℕ → ℕ → Db → SettingsResponse × Db
apply_settings event event_id next confirmed now db =
    let db₁ : Db = (settle_locked event_id now (store_settings event_id next now db)).1 in
    let filled = fill_free_spots event_id now db₁ in
    let (promoted, db₂) = if ltb event.registration_limit next.capacity then filled else (0, db₁) in
    (
      record {
        settings = next;
        confirmed_count = confirmed + promoted;
        version = suc event.registration_settings_version;
      },
      db₂,
    )

unfoldable pub update_for : Event → ℕ → ℕ → Result (SettingsPatch × ℕ) → ℕ → M SettingsResponse
update_for event event_id uid parsed now = do
  throw_if (not (some_eq event.coordinator_id uid)) Refusal.settings_forbidden
  throw_if (not (configurable event.status)) Refusal.not_configurable
  patch ← lift parsed
  throw_if (not (patch.1 == event.registration_settings_version)) Refusal.settings_conflict
  writes (settle_locked event_id now)
  confirmed ← gets (λ db. registered_count event_id db.registrations)
  next ←
      lift (validate_registration_settings (to_saved event) patch.0 event.start_date_time confirmed)
  writes (apply_settings event event_id next confirmed now)

unfoldable pub update_work :
    Option AuthenticatedUser → RouteId → Result (SettingsPatch × ℕ) → ℕ → M SettingsResponse
update_work identity id parsed now = do
  user ← require_coordinator identity
  event_id ← require_settings_id id
  found ← gets (λ db. find_event event_id db.events)
  event ← require found Refusal.event_not_found
  update_for event event_id user.uid parsed now

unfoldable pub update :
    Option AuthenticatedUser
    → RouteId
    → Result (SettingsPatch × ℕ)
    → ℕ
    → Db
    → Result SettingsResponse × Db
update identity id parsed now db = transaction (update_work identity id parsed now) db
