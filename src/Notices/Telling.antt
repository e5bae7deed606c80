-- ===== src/Notices/Telling.antt =====
-- What telling a coordinator of the requests that wait does to the tables
-- (backend/src/events/change-requests/change-request-notice.ts,
-- backend/src/events/cancellation-requests/cancellation-request-notice.ts).
use is212_g5_t.Base.{
  ℕ, String, ◌≡◌, refl, Bool, true, false, ◌&&◌, ◌==◌, Option, none, some, List, [], ◌∷◌, any,
  find_by, arith, Bool-cases, inl, inr,
}
use is212_g5_t.Schema.{Notification, NotificationType, Db, ChangeRequest, CancellationRequest}
use is212_g5_t.Notices.{
  change_notice, cancellation_notice, is_pending_change, is_pending_cancellation, tell_change,
  tell_cancellation, notify_pending_change_request, notify_pending_cancellation_request,
  tell_pending,
}

-- A notice of one kind to one recipient about one event.
abbrev pub tells : ℕ → ℕ → (NotificationType → Bool) → Notification → Bool
tells recipient event_id kind n =
    n.recipient_id == recipient && (n.related_event_id == event_id && kind n.type)

abbrev pub told : ℕ → ℕ → (NotificationType → Bool) → Db → Bool
told recipient event_id kind db = any (tells recipient event_id kind) db.notifications

abbrev pub is_assignment : NotificationType → Bool
is_assignment NotificationType.coordinator_assignment = true
is_assignment _ = false

abbrev pub is_change_request : NotificationType → Bool
is_change_request NotificationType.coordinator_change_request = true
is_change_request _ = false

abbrev pub is_cancellation_request : NotificationType → Bool
is_cancellation_request NotificationType.cancellation_request_submitted = true
is_cancellation_request _ = false

find_by-any :
    {A : Type 0} (p : A → Bool) (xs : List A) → any p xs ≡ true → (a : A) × (find_by p xs ≡ some a)
find_by-any p [] h = absurd (ground arith)
find_by-any p (x ∷ xs) h = elim (Bool-cases (p x)) [
  | inl hit ↦ (x, rw hit refl)
  | inr miss ↦ let (a, e) = find_by-any p xs (ground arith) in (a, rw miss e)
]

-- The tables that telling a coordinator of the pending requests leaves alone, and the notices that
-- it keeps and adds.
pub record Told (event_id : ℕ) (coordinator : ℕ) (db db' : Db) : Type 0 where
  pub events : db'.events ≡ db.events
  pub registrations : db'.registrations ≡ db.registrations
  pub reassignments : db'.reassignments ≡ db.reassignments
  pub keeps :
      (q : Notification → Bool) → any q db.notifications ≡ true → any q db'.notifications ≡ true
  pub change :
      any (is_pending_change event_id) db.change_requests ≡ true
      → told coordinator event_id is_change_request db' ≡ true
  pub cancellation :
      any (is_pending_cancellation event_id) db.cancellation_requests ≡ true
      → told coordinator event_id is_cancellation_request db' ≡ true
  pub fresh :
      (q : Notification → Bool)
      → ((n : Notification) → n.recipient_id ≡ coordinator → q n ≡ false)
      → any q db.notifications ≡ false
      → any q db'.notifications ≡ false

module _ (event_id : ℕ) (name : String) (coordinator : ℕ) (db : Db) where
  find_by-quiet :
      {A : Type 0} (p : A → Bool) (xs : List A) → find_by p xs ≡ none → any p xs ≡ true → ⊥
  find_by-quiet p xs e h = let (a, f) = find_by-any p xs h in absurd (cc (e, f))

  pub tell_pending-Told : Told event_id coordinator db (tell_pending event_id name coordinator db)
  unfolding notify_pending_cancellation_request notify_pending_change_request
  tell_pending-Told = by_requests _ refl _ refl
    where
      by_requests :
          (c : Option ChangeRequest)
          → find_by (is_pending_change event_id) db.change_requests ≡ c
          → (d : Option CancellationRequest)
          → find_by (is_pending_cancellation event_id) db.cancellation_requests ≡ d
          → Told event_id coordinator db (
              tell_cancellation event_id name coordinator
                (find_by
                  (is_pending_cancellation event_id)
                  (tell_change event_id name coordinator c db).cancellation_requests)
                (tell_change event_id name coordinator c db))
      by_requests none quiet none still = rw still record {
        events = refl;
        registrations = refl;
        reassignments = refl;
        keeps = λ q h. h;
        change =
            λ h. absurd (find_by-quiet (is_pending_change event_id) db.change_requests quiet h);
        cancellation = λ h.
            absurd
              (find_by-quiet (is_pending_cancellation event_id) db.cancellation_requests still h);
        fresh = λ q h f. f;
      }
      by_requests (some r) found none still = rw still record {
        events = refl;
        registrations = refl;
        reassignments = refl;
        keeps = λ q h. ground arith;
        change = λ h. ground arith;
        cancellation = λ h.
            absurd
              (find_by-quiet (is_pending_cancellation event_id) db.cancellation_requests still h);
        fresh = λ q h f. rw (h (change_notice event_id name coordinator r) refl) f;
      }
      by_requests none quiet (some r) waiting = rw waiting record {
        events = refl;
        registrations = refl;
        reassignments = refl;
        keeps = λ q h. ground arith;
        change =
            λ h. absurd (find_by-quiet (is_pending_change event_id) db.change_requests quiet h);
        cancellation = λ h. ground arith;
        fresh = λ q h f.
            rw
              (h (cancellation_notice coordinator event_id name r.requested_by r.requested_at) refl)
              f;
      }
      by_requests (some s) found (some r) waiting = rw waiting record {
        events = refl;
        registrations = refl;
        reassignments = refl;
        keeps = λ q h. ground arith;
        change = λ h. ground arith;
        cancellation = λ h. ground arith;
        fresh = λ q h f.
            rw
              (
                h (cancellation_notice coordinator event_id name r.requested_by r.requested_at)
                    refl,
                h (change_notice event_id name coordinator s) refl,
              )
              f;
      }
