-- ===== src/Schema/Venues.antt =====
-- The tables of the venues (database/postgresql/init/001_schema.sql).
use is212_g5_t.Base.{ℕ, String, Bool, Option, List}

pub record Venue : Type 0 where
  pub id : ℕ
  pub owner_user_id : ℕ
  pub name : String
  pub location : String
  pub setup_time_minutes : ℕ
  pub turnaround_time_minutes : ℕ

pub data BookingStatus : Type 0 where
  pending approved rejected released cancelled expired : BookingStatus

pub data RequestKind : Type 0 where
  booking tentative_hold : RequestKind

-- A row of venue_bookings with an event. The name and the location of its venue and the flag
-- venue_unavailable are no columns: a reader that joins the venue fills them in.
pub record VenueBooking : Type 0 where
  pub id : ℕ
  pub event_id : ℕ
  pub venue_id : ℕ
  pub venue_name : String
  pub venue_location : String
  pub status : BookingStatus
  pub request_kind : RequestKind
  pub hold_expires_at : Option ℕ
  pub start_at : ℕ
  pub end_at : ℕ
  pub venue_unavailable : Bool
  pub created_at : ℕ
  pub released_at : Option ℕ
  -- By its code units.
  pub rejection_reason : Option (List ℕ)
  pub special_request : Option String
  pub reassessment_required : Bool
  pub hold_expiry_processed_at : Option ℕ
  pub hold_reminder_sent_at : Option ℕ

-- A row of venue_bookings with the status 'blocked', which has no event.
pub record Unavailability : Type 0 where
  pub id : ℕ
  pub venue_id : ℕ
  pub reason : String
  pub start_at : ℕ
  pub end_at : ℕ

pub record BookingRequest : Type 0 where
  pub event_id : ℕ
  pub venue_id : ℕ
  pub special_request : Option String

-- A row of booking_review_log: an approval, or a rejection with its reason.
pub record ReviewEntry : Type 0 where
  pub booking_id : ℕ
  pub actor_user_id : ℕ
  -- By its code units.
  pub rejection_reason : Option (List ℕ)
