-- ===== src/Registrations/Withdrawing/HandOver.antt =====
-- A place that is given up goes to the waiting list (backend/src/registrations/registrations.service.ts,
-- withdraw).
use is212_g5_t.Base.{
  ℕ, ◌+◌, ◌≤◌, ◌≡◌, refl, ap, inl, inr, Bool, true, false, ◌&&◌, none, some, List, [], ◌∷◌, ◌==◌,
  arith, length, find_by, find_by-Has, count_if, count_if_pos, count_if_mono, count_if-update_one,
  count_if-update_where, Bool-cases,
}
use is212_g5_t.Schema.{
  Event, Registration, RegistrationStatus, Db, AuthenticatedUser, uuid, ok, find_event, has_id,
  holds_place, waits, is_registered, registered_count, waitlisted_count,
}
use is212_g5_t.Transaction.{transaction}
use is212_g5_t.Waitlist.{event_due, settle_locked, fill_free_spots}
use is212_g5_t.Waitlist.Settling.{settle_locked_cases}
use is212_g5_t.Waitlist.Promotion.{UniqueIds, fill_free_spots-Promoted}
use is212_g5_t.Registrations.{absent, require_empty_body, view_of}
use is212_g5_t.Registrations.Invariant.{Valid}
use is212_g5_t.Registrations.Withdrawing.{
  has_event_started, own_in, mark_withdrawn, compare_and_withdraw, release_place, decide_withdrawal,
  withdraw_found, withdraw_work, withdraw,
}

module _ {A : Type 0} (p q s : A → Bool) where
  -- A row that a stronger test finds is the one that a unique key names.
  find_by-weaken :
      (xs : List A) (a : A)
      → count_if p xs ≤ 1
      → find_by (λ x. p x && q x) xs ≡ some a
      → find_by p xs ≡ some a
  find_by-weaken [] a u h = h
  find_by-weaken (x ∷ xs) a u h = elim (Bool-cases (p x)) [
    | inr miss ↦ ground (arith, find_by-weaken xs a)
    | inl hit ↦ elim (Bool-cases (q x)) [
      | inl both ↦ ground arith
      | inr other ↦
          let rest : find_by (λ y. p y && q y) xs ≡ some a = ground arith in
          let (m, t) = find_by-Has (λ y. p y && q y) xs a rest in
          absurd (ground (arith, count_if_pos p xs a m))
    ]
  ]

  find_by-strengthen :
      (xs : List A) (a : A)
      → find_by (λ x. p x && q x) xs ≡ some a
      → s a ≡ true
      → find_by (λ x. p x && (q x && s x)) xs ≡ some a
  find_by-strengthen [] a h t = h
  find_by-strengthen (x ∷ xs) a h t = elim (Bool-cases (p x && q x)) [
    | inl hit ↦ let same : x ≡ a = ground arith in ground arith
    | inr miss ↦ ground (arith, find_by-strengthen xs a)
  ]

module _ (user : AuthenticatedUser) (id now : ℕ) (db : Db) (r : Registration) (e : Event)
    (v : Valid db)
    (own : find_by (λ x. has_id id x && x.attendee_id == user.uid) db.registrations ≡ some r)
    (found : find_event r.event_id db.events ≡ some e)
    (registered : r.status ≡ RegistrationStatus.registered)
    (ahead : has_event_started e now ≡ false) where
  abbrev freed : Db
  freed = (compare_and_withdraw is_registered id user.uid now db).1

  withdraw-fill : withdraw (some user) (uuid id) absent now db ≡ (
    ok (view_of (mark_withdrawn now r) e.event_name none),
    (fill_free_spots r.event_id now freed).1,
  )
  unfolding withdraw withdraw_work withdraw_found decide_withdrawal release_place
      compare_and_withdraw transaction require_empty_body
  withdraw-fill =
      let by_id =
        find_by-weaken (has_id id) (λ x. x.attendee_id == user.uid) (λ x. true) db.registrations r
          (v.ids id) own in
      let by_status =
        find_by-strengthen (has_id id) (λ x. x.attendee_id == user.uid)
          (λ x. is_registered x.status) db.registrations r own (ap is_registered registered) in
      rw (own, found, by_id, registered, ahead, by_status) refl

  freed-registered :
      registered_count r.event_id freed.registrations + 1
      ≡ registered_count r.event_id db.registrations
  unfolding compare_and_withdraw
  freed-registered =
      let (m, t) =
        find_by-Has (λ x. has_id id x && x.attendee_id == user.uid) db.registrations r own in
      let unique =
        count_if_mono (own_in is_registered id user.uid) (has_id id) db.registrations
          (λ x h. ground arith) in
      ground (
        arith,
        count_if-update_one (holds_place r.event_id) (own_in is_registered id user.uid)
            (mark_withdrawn now) db.registrations r (omega (arith, unique, v.ids id)) m
            (ground arith),
      )

  freed-waiting :
      waitlisted_count r.event_id freed.registrations ≡ waitlisted_count r.event_id db.registrations
  unfolding compare_and_withdraw
  freed-waiting =
      count_if-update_where (waits r.event_id) (own_in is_registered id user.uid)
        (mark_withdrawn now) db.registrations (λ x h. ground arith)

  freed-ids : UniqueIds freed.registrations
  unfolding compare_and_withdraw
  freed-ids i =
      rw
        (count_if-update_where (has_id i) (own_in is_registered id user.uid) (mark_withdrawn now)
          db.registrations (λ x h. refl))
        (v.ids i)

  freed-notified : length freed.notifications ≡ length db.notifications
  unfolding compare_and_withdraw
  freed-notified = refl

-- On valid tables, a registered attendee who withdraws before the event starts, while
-- registration is open and others wait, hands the place over: the call succeeds, as many places
-- are held as before, one entry less waits, and one notice more is written.
pub withdraw_hands_over :
    (user : AuthenticatedUser) (id now : ℕ) (db : Db) (r : Registration) (e : Event)
    → Valid db
    → find_by (λ x. has_id id x && x.attendee_id == user.uid) db.registrations ≡ some r
    → find_event r.event_id db.events ≡ some e
    → r.status ≡ RegistrationStatus.registered
    → has_event_started e now ≡ false
    → event_due now e ≡ false
    → 1 ≤ waitlisted_count r.event_id db.registrations
    → let (result, db') = withdraw (some user) (uuid id) absent now db in
      (result ≡ ok (view_of (mark_withdrawn now r) e.event_name none))
      × (registered_count r.event_id db'.registrations
          ≡ registered_count r.event_id db.registrations)
      × (waitlisted_count r.event_id db'.registrations + 1
          ≡ waitlisted_count r.event_id db.registrations)
      × (length db'.notifications ≡ length db.notifications + 1)
withdraw_hands_over user id now db r e v own found registered ahead open_list someone =
    let db₁ : Db = freed user id now db r e v own found registered ahead in
    let same_events : find_event r.event_id db₁.events ≡ some e =
      unfold compare_and_withdraw in found in
    let still : settle_locked r.event_id now db₁ ≡ (0, db₁) =
      (settle_locked_cases r.event_id now db₁ e same_events).1 open_list in
    let unique : UniqueIds db₁.registrations =
      freed-ids user id now db r e v own found registered ahead in
    let (promoted, count) = fill_free_spots-Promoted r.event_id now db₁ e unique same_events in
    let p = rw still at promoted in
    let n = rw still at count in
    let less = freed-registered user id now db r e v own found registered ahead in
    let same_list = freed-waiting user id now db r e v own found registered ahead in
    let one : (fill_free_spots r.event_id now db₁).0 ≡ 1 =
      ground (arith, v.capacity r.event_id e found, v.no_idle r.event_id e found) in
    rw (withdraw-fill user id now db r e v own found registered ahead) (
      refl,
      omega (arith, p.more_registered, one, less),
      omega (arith, p.fewer_waiting, one, same_list),
      omega
          (arith, p.notified, one, freed-notified user id now db r e v own found registered ahead),
    )
