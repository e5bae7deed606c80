-- ===== src/Registrations/Settings/Validity.antt =====
-- Saving registration settings keeps the tables valid
-- (backend/src/registrations/settings/registration-settings.service.ts).
use native.Mathlib.Decide.{ℕ_discrete}
use is212_g5_t.Base.{
  ℕ, ◌≤◌, ◌≡◌, ◌≢◌, refl, sym, ap, ◌∙◌, ◌⊎◌, inl, inr, not, Option, none, some, List, arith, ◌==◌,
  ltb, update_where, Bool-cases, any, some_eq,
}
use is212_g5_t.Schema.{
  Event, Db, AuthenticatedUser, RouteId, uuid, malformed, Refusal, Result, ok, err, find_event,
  is_coordinator, registered_count, waitlisted_count,
}
use is212_g5_t.Schema.Events.{find_event-set_self, find_event-set_other}
use is212_g5_t.Transaction.{Outcome, done, require, throw_if, writes, ◌>>=◌}
use is212_g5_t.Transaction.Reading.{
  Reads, after, transaction-after, reads_then, reads_before, after_writes, throw_if-Reads,
  require-Reads, require_found,
}
use is212_g5_t.Waitlist.{settle_locked}
use is212_g5_t.Waitlist.Settling.{settle_locked-events}
use is212_g5_t.Registrations.Invariant.{
  Valid, ValidBut, settle_locked-Valid, settle_locked-ValidBut, fill_free_spots-Valid,
}
use is212_g5_t.Registrations.Settings.Rules.{
  SavedSettings, SettingsPatch, validate_registration_settings,
  validate_registration_settings_sound,
}
use is212_g5_t.Registrations.Settings.{
  require_coordinator, require_settings_id, lift, configurable, to_saved, configure, store_settings,
  apply_settings, update_for, update_work, update, SettingsResponse,
}

module _ (event_id : ℕ) (next : SavedSettings) (now : ℕ) where
  pub find_event-configure_self :
      (events : List Event) (e : Event)
      → find_event event_id events ≡ some e
      → find_event event_id (update_where (λ x. x.id == event_id) (configure next now) events)
        ≡ some (configure next now e)
  find_event-configure_self = find_event-set_self event_id (configure next now) (λ x. refl)

  pub find_event-configure_other :
      (k : ℕ) (events : List Event)
      → k ≢ event_id
      → find_event k (update_where (λ x. x.id == event_id) (configure next now) events)
        ≡ find_event k events
  find_event-configure_other = find_event-set_other event_id (configure next now) (λ x. refl)

  module _ (db : Db) (event : Event) (v : Valid db)
      (found : find_event event_id db.events ≡ some event)
      (covers : registered_count event_id db.registrations ≤ next.capacity) where
    abbrev stored : Db
    stored = store_settings event_id next now db

    stored-ValidBut : ValidBut event_id stored
    stored-ValidBut = record {
      ids = v.ids;
      keys = v.keys;
      capacity = λ k c f. within k c f;
      no_idle = λ k c ne f. v.no_idle k c (rw (find_event-configure_other k db.events ne) at f);
    }
      where
        within :
            (k : ℕ) (c : Event)
            → find_event k stored.events ≡ some c
            → registered_count k db.registrations ≤ c.registration_limit
        within k c f = elim (ℕ_discrete k event_id) [
          | yes h ↦
              let at : find_event event_id stored.events ≡ some c =
                sym (ap (λ j. find_event j stored.events) h) ∙ f in
              let same : configure next now event ≡ c =
                cc (find_event-configure_self db.events event found, at) in
              rw h (omega (arith, covers, ap (λ (x : Event). x.registration_limit) same))
          | no h ↦ v.capacity k c (rw (find_event-configure_other k db.events h) at f)
        ]

    -- With no more places than before the lists stay as they must.
    stored-Valid : next.capacity ≤ event.registration_limit → Valid stored
    stored-Valid fewer = record {
      ids = v.ids;
      keys = v.keys;
      capacity = stored-ValidBut.capacity;
      no_idle = λ k c f. full k c f;
    }
      where
        full :
            (k : ℕ) (c : Event)
            → find_event k stored.events ≡ some c
            → (waitlisted_count k db.registrations ≡ 0)
              ⊎ (c.registration_limit ≤ registered_count k db.registrations)
        full k c f = elim (ℕ_discrete k event_id) [
          | yes h ↦
              let at : find_event event_id stored.events ≡ some c =
                sym (ap (λ j. find_event j stored.events) h) ∙ f in
              let same : configure next now event ≡ c =
                cc (find_event-configure_self db.events event found, at) in
              rw h (
                omega (
                  arith,
                  fewer,
                  v.no_idle event_id event found,
                  ap (λ (x : Event). x.registration_limit) same,
                ))
          | no h ↦ stored-ValidBut.no_idle k c h f
        ]

    apply_settings-Valid :
        (confirmed : ℕ) → Valid (apply_settings event event_id next confirmed now db).1
    unfolding apply_settings
    apply_settings-Valid confirmed =
        elim (Bool-cases (ltb event.registration_limit next.capacity)) [
          | inl more ↦ rw more (
              fill_free_spots-Valid event_id now (settle_locked event_id now stored).1
                (configure next now event)
                (settle_locked-ValidBut event_id event_id now stored stored-ValidBut)
                (rw (settle_locked-events event_id now stored)
                  (find_event-configure_self db.events event found)))
          | inr fewer ↦
              rw fewer (settle_locked-Valid event_id now stored (stored-Valid (ground arith)))
        ]

lift-Reads : {A : Type 0} (r : Result A) (db : Db) → Reads db (lift r db)
lift-Reads (ok a) db = inl (a, refl)
lift-Reads (err e) db = inr (e, refl)

lift_found : {A : Type 0} (r : Result A) (a : A) (db : Db) → lift r db ≡ done a db → r ≡ ok a
lift_found (ok b) a db h = cc
lift_found (err e) a db h = cc

update_for-Valid :
    (event : Event) (event_id uid : ℕ) (parsed : Result (SettingsPatch × ℕ)) (now : ℕ) (db : Db)
    → Valid db
    → find_event event_id db.events ≡ some event
    → Valid (after db (update_for event event_id uid parsed now db))
unfolding update_for
update_for-Valid event event_id uid parsed now db v found =
    reads_before Valid
      (throw_if (not (some_eq event.coordinator_id uid)) Refusal.settings_forbidden) db _ v
      (throw_if-Reads _ Refusal.settings_forbidden db)
      λ _ _.
        reads_before Valid (throw_if (not (configurable event.status)) Refusal.not_configurable) db
          _ v (throw_if-Reads _ Refusal.not_configurable db)
          λ _ _. reads_then Valid (lift parsed) db _ v (lift-Reads parsed db) λ patch _.
            reads_before Valid
              (throw_if (not (patch.1 == event.registration_settings_version))
                Refusal.settings_conflict)
              db _ v (throw_if-Reads _ Refusal.settings_conflict db)
              λ _ _. after_writes Valid db db₁ (rest patch.0) v (saved patch.0)
  where
    db₁ : Db
    db₁ = (settle_locked event_id now db).1

    confirmed : ℕ
    confirmed = registered_count event_id db₁.registrations

    rest : SettingsPatch → Outcome SettingsResponse
    rest patch =
        (lift (
              validate_registration_settings (to_saved event) patch event.start_date_time confirmed)
            >>= λ next. writes (apply_settings event event_id next confirmed now))
          db₁

    saved : (patch : SettingsPatch) → Valid (after db₁ (rest patch))
    saved patch =
        let v₁ = settle_locked-Valid event_id now db v in
        let decision =
          validate_registration_settings (to_saved event) patch event.start_date_time confirmed in
        reads_then Valid (lift decision) db₁ _ v₁ (lift-Reads decision db₁) λ next accepted.
          apply_settings-Valid event_id next now db₁ event v₁
            (rw (settle_locked-events event_id now db) found)
            (validate_registration_settings_sound (to_saved event) patch event.start_date_time
              confirmed next (lift_found decision next db₁ accepted)).2
            confirmed

pub require_coordinator-Reads :
    (identity : Option AuthenticatedUser) (db : Db) → Reads db (require_coordinator identity db)
require_coordinator-Reads none db = inr (Refusal.authentication_required, refl)
require_coordinator-Reads (some user) db = elim (Bool-cases (any is_coordinator user.roles)) [
  | inl t ↦ inl (user, rw t)
  | inr f ↦ inr (Refusal.not_coordinator, rw f)
]

pub require_settings_id-Reads : (id : RouteId) (db : Db) → Reads db (require_settings_id id db)
require_settings_id-Reads (uuid id) db = inl (id, refl)
require_settings_id-Reads malformed db = inr (Refusal.event_not_found, refl)

-- Whatever the request, saving registration settings on valid tables leaves them valid under the
-- new limit: ids and the pairs of event and attendee are unique, no event has more registered
-- attendees than its limit, and nobody waits while a place is free.
pub update-Valid :
    (identity : Option AuthenticatedUser) (id : RouteId) (parsed : Result (SettingsPatch × ℕ))
    (now : ℕ) (db : Db)
    → Valid db
    → Valid (update identity id parsed now db).1
unfolding update update_work
update-Valid identity id parsed now db v =
    rw (transaction-after (update_work identity id parsed now) db) (
      reads_then Valid (require_coordinator identity) db _ v (require_coordinator-Reads identity db)
        λ user _.
          reads_then Valid (require_settings_id id) db _ v (require_settings_id-Reads id db)
            λ event_id _.
              let found = find_event event_id db.events in
              reads_then Valid (require found Refusal.event_not_found) db _ v
                (require-Reads found Refusal.event_not_found db)
                λ event h.
                  update_for-Valid event event_id user.uid parsed now db v
                    (require_found found Refusal.event_not_found event db h))
