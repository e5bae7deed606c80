-- ===== src/Registrations/Checks.antt =====
-- The checks before a registration call's writes read, and refuse or let through.
use is212_g5_t.Base.{◌≡◌, refl, inl, inr, Option, none, some, arith, Bool-cases, any, [], ◌∷◌}
use is212_g5_t.Schema.{Event, Db, AuthenticatedUser, RouteId, uuid, malformed, is_attendee, Refusal}
use is212_g5_t.Transaction.{done}
use is212_g5_t.Transaction.Reading.{Reads}
use is212_g5_t.Registrations.{
  require_visible, require_attendee, require_event_id, require_empty_body, Body, absent, object,
  other, attendee_visible,
}

pub require_attendee-Reads :
    (identity : Option AuthenticatedUser) (db : Db) → Reads db (require_attendee identity db)
unfolding require_attendee
require_attendee-Reads none db = inr (Refusal.authentication_required, refl)
require_attendee-Reads (some user) db = elim (Bool-cases (any is_attendee user.roles)) [
  | inl t ↦ inl (user, rw t)
  | inr f ↦ inr (Refusal.attendee_only, rw f)
]

pub require_event_id-Reads : (id : RouteId) (db : Db) → Reads db (require_event_id id db)
unfolding require_event_id
require_event_id-Reads (uuid id) db = inl (id, refl)
require_event_id-Reads malformed db = inr (Refusal.event_not_found, refl)

pub require_visible-Reads : (o : Option Event) (db : Db) → Reads db (require_visible o db)
unfolding require_visible
require_visible-Reads none db = inr (Refusal.event_not_found, refl)
require_visible-Reads (some e) db = elim (Bool-cases (attendee_visible e.status)) [
  | inl t ↦ inl (e, rw t)
  | inr f ↦ inr (Refusal.event_not_found, rw f)
]

pub require_visible_found :
    (o : Option Event) (e : Event) (db : Db) → require_visible o db ≡ done e db → o ≡ some e
unfolding require_visible
require_visible_found none e db h = cc
require_visible_found (some x) e db h = ground arith

pub require_empty_body-Reads : (body : Body) (db : Db) → Reads db (require_empty_body body db)
unfolding require_empty_body
require_empty_body-Reads absent db = inl (tt, refl)
require_empty_body-Reads (object []) db = inl (tt, refl)
require_empty_body-Reads (object (key ∷ keys)) db = inr (Refusal.validation, refl)
require_empty_body-Reads other db = inr (Refusal.validation, refl)
