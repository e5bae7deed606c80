-- ===== src/Venues/Expiry.antt =====
-- What a tick of the expiry job does (backend/src/venues/repository/venues.repository.ts,
-- processExpiredTentativeHolds).
use is212_g5_t.Base.{
  ℕ, ◌≡◌, refl, ◌∙◌, ap, false, ◌==◌, none, some, [], arith, any, map, keep, keep_none,
  update_where, find_by-update_where, any-update_where_all, if◌then◌else◌, ◌≤◌, true, Option, Has,
  Has-any, Bool-cases, inl, inr,
}
use mathlib.Core.Option
use is212_g5_t.Schema.{VenueBooking, BookingStatus, RequestKind, Db}
use is212_g5_t.Venues.{find_booking}
use is212_g5_t.Venues.Notices.{HoldChange}
use is212_g5_t.Venues.Holds.{is_elapsed, expire_row, process_expired_tentative_holds}
use is212_g5_t.Venues.Keeping.{tell_each-SameRows}

expired_rows :
    (now : ℕ) (db : Db)
    → (process_expired_tentative_holds now db).1.bookings
      ≡ update_where (is_elapsed now) (expire_row now) db.bookings
unfolding process_expired_tentative_holds
expired_rows now db =
    (tell_each-SameRows HoldChange.expired none (keep (is_elapsed now) db.bookings) (record db {
      bookings = update_where (is_elapsed now) (expire_row now) db.bookings;
    })).bookings

-- An approved hold whose expiry has come and that the job has not yet taken.
pub record IsDue (now : ℕ) (b : VenueBooking) : Type 0 where
  pub hold : b.request_kind ≡ RequestKind.tentative_hold
  pub approved : b.status ≡ BookingStatus.approved
  pub expiry : ℕ
  pub expires : b.hold_expires_at ≡ some expiry
  pub come : expiry ≤ now
  pub unprocessed : b.hold_expiry_processed_at ≡ none

elapsed-IsDue_columns :
    (now : ℕ) (b : VenueBooking) (expiry processed : Option ℕ)
    → b.hold_expires_at ≡ expiry
    → b.hold_expiry_processed_at ≡ processed
    → is_elapsed now b ≡ true
    → IsDue now b
elapsed-IsDue_columns now b none processed e p h = absurd (ground arith)
elapsed-IsDue_columns now b (some t) (some q) e p h = absurd (ground arith)
elapsed-IsDue_columns now b (some t) none e p h = record {
  hold = ground arith;
  approved = ground arith;
  expiry = t;
  expires = e;
  come = ground arith;
  unprocessed = p;
}

elapsed-IsDue : (now : ℕ) (b : VenueBooking) → is_elapsed now b ≡ true → IsDue now b
elapsed-IsDue now b =
    elapsed-IsDue_columns now b b.hold_expires_at b.hold_expiry_processed_at refl refl

IsDue-elapsed : (now : ℕ) (b : VenueBooking) → IsDue now b → is_elapsed now b ≡ true
IsDue-elapsed now b d = ground (arith, d.hold, d.approved, d.expires, d.come, d.unprocessed)

-- The expiry job makes each approved hold whose expiry has come Expired, marked with the instant of
-- the run, and leaves every other booking as it is; no such hold is left, and a second run at the same
-- instant finds none to expire.
pub process_expired_tentative_holds_lem :
    (now : ℕ) (db : Db)
    → let db' = (process_expired_tentative_holds now db).1 in
      ((i : ℕ) (b : VenueBooking)
        → find_booking i db.bookings ≡ some b
        → (IsDue now b
            → find_booking i db'.bookings
              ≡ some (record b {
                status = BookingStatus.expired;
                hold_expiry_processed_at = some now;
              }))
          × ((IsDue now b → ⊥) → find_booking i db'.bookings ≡ some b))
      × ((b : VenueBooking) → Has b db'.bookings → IsDue now b → ⊥)
      × ((process_expired_tentative_holds now db').0 ≡ [])
unfolding process_expired_tentative_holds
process_expired_tentative_holds_lem now db =
    let rows = expired_rows now db in
    let none_left : any (is_elapsed now) (process_expired_tentative_holds now db).1.bookings
        ≡ false =
      ap (any (is_elapsed now)) rows
      ∙ any-update_where_all (is_elapsed now) (expire_row now) db.bookings (λ b. ground arith) in
    let stored : (i : ℕ) (b : VenueBooking)
        → find_booking i db.bookings ≡ some b
        → find_booking i (process_expired_tentative_holds now db).1.bookings
          ≡ some (if is_elapsed now b then expire_row now b else b) =
      λ i b found.
        ap (find_booking i) rows
        ∙ find_by-update_where (λ x. x.id == i) (is_elapsed now) (expire_row now) db.bookings
            (λ x. refl)
        ∙ ap (Option.map (λ x. if is_elapsed now x then expire_row now x else x)) found in
    (
      λ i b found. (
        λ due. stored i b found ∙ rw (IsDue-elapsed now b due) refl,
        λ not_due. elim (Bool-cases (is_elapsed now b)) [
          | inl due ↦ absurd (not_due (elapsed-IsDue now b due))
          | inr stays ↦ stored i b found ∙ rw stays refl
        ],
      ),
      λ b m due.
          let hit = Has-any (is_elapsed now) _ b m (IsDue-elapsed now b due) in
          absurd (ground (arith, hit, none_left)),
      ap (map (λ b. b.id)) (
          keep_none (is_elapsed now) (process_expired_tentative_holds now db).1.bookings none_left),
    )
