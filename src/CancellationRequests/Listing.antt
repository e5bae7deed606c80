-- ===== src/CancellationRequests/Listing.antt =====
-- The list of an event's cancellation requests
-- (backend/src/events/cancellation-requests/cancellation-requests.service.ts, listForEvent).
use is212_g5_t.Base.{
  ℕ, ◌≡◌, refl, ◌∙◌, Bool, true, false, ◌&&◌, ◌==◌, some, map, keep, count_if, count_if-keep,
  count_if-sort_in, sort_in-InOrder, InOrder, arith, ◌≢◌, ◌<◌, ◌≤◌, ◌⊎◌, inl, inr, List, [], ◌∷◌,
  Has, All, keep-Has, sort_in-Has, ==_iff,
}
use is212_g5_t.Schema.{
  Event, EventStatus, CancellationRequest, CancellationStatus, Db, AuthenticatedUser, uuid,
  find_event,
}
use is212_g5_t.Transaction.{done}
use is212_g5_t.CancellationRequests.{
  can_read, is_newer, rows_of, to_record, list_for_event, RequestView, DisplayStatus,
  display_status_of,
}

is_newer_asym : (a b : CancellationRequest) → is_newer a b ≡ true → is_newer b a ≡ false
is_newer_asym a b h = ground arith

-- A listed request: which event it names, and the status it is shown with.
pub record Shown (event_id : ℕ) (event : Event) (v : RequestView) : Type 0 where
  pub of_event : v.request.event_id ≡ event_id
  pub event_name : v.event_name ≡ event.event_name
  pub accepted :
      v.request.status ≡ CancellationStatus.accepted → v.display_status ≡ DisplayStatus.accepted
  pub declined :
      v.request.status ≡ CancellationStatus.declined → v.display_status ≡ DisplayStatus.declined
  pub closed_cancelled :
      v.request.status ≡ CancellationStatus.pending
      → event.status ≡ EventStatus.cancelled
      → v.display_status ≡ DisplayStatus.closed_cancelled
  pub closed_completed :
      v.request.status ≡ CancellationStatus.pending
      → event.status ≡ EventStatus.completed
      → v.display_status ≡ DisplayStatus.closed_completed
  pub waiting :
      v.request.status ≡ CancellationStatus.pending
      → event.status ≢ EventStatus.cancelled
      → event.status ≢ EventStatus.completed
      → v.display_status ≡ DisplayStatus.pending

-- Newest first, and by id where two were filed at the same instant.
abbrev pub NewestFirst : List RequestView → Type 0
NewestFirst [] = Unit
NewestFirst (a ∷ []) = Unit
NewestFirst (a ∷ (b ∷ vs)) =
    ((b.request.requested_at < a.request.requested_at)
      ⊎ ((a.request.requested_at ≡ b.request.requested_at) × (a.request.id ≤ b.request.id)))
    × NewestFirst (b ∷ vs)

to_record-Shown :
    (event_id : ℕ) (event : Event) (r : CancellationRequest)
    → r.event_id ≡ event_id
    → Shown event_id event (to_record r event.event_name event.status)
unfolding to_record display_status_of
to_record-Shown event_id event r named = record {
  of_event = named;
  event_name = refl;
  accepted = λ h. ground arith;
  declined = λ h. ground arith;
  closed_cancelled = λ h k. ground arith;
  closed_completed = λ h k. ground arith;
  waiting = λ h k l. ground arith;
}

views : Event → List CancellationRequest → List RequestView
views event rows = map (λ r. to_record r event.event_name event.status) rows

Has-views :
    (event_id : ℕ) (event : Event) (rows : List CancellationRequest)
    → ((r : CancellationRequest) → Has r rows → r.event_id ≡ event_id)
    → All (Shown event_id event) (views event rows)
unfolding views
Has-views event_id event [] h = tt
Has-views event_id event (r ∷ rows) h = (
  to_record-Shown event_id event r (h r (inl refl)),
  Has-views event_id event rows (λ x m. h x (inr m)),
)

InOrder-NewestFirst :
    (event : Event) (rows : List CancellationRequest)
    → InOrder is_newer rows
    → NewestFirst (views event rows)
unfolding views to_record
InOrder-NewestFirst event [] h = tt
InOrder-NewestFirst event (a ∷ []) h = tt
InOrder-NewestFirst event (a ∷ (b ∷ rows)) (ab, h) =
    (ground arith, InOrder-NewestFirst event (b ∷ rows) h)

count_if-views :
    (event : Event) (p : CancellationRequest → Bool) (rows : List CancellationRequest)
    → count_if (λ v. p v.request) (views event rows) ≡ count_if p rows
unfolding views to_record
count_if-views event p [] = refl
count_if-views event p (r ∷ rows) = ground (arith, count_if-views event p rows)

-- The organiser of an event and its assigned coordinator read its requests: each request of the
-- event as often as the table has it and none of another event, newest first, each with the name
-- of the event and its own outcome, or, while it is pending, whether the event has been cancelled or
-- completed since; reading changes nothing.
pub list_for_event_lem :
    (user : AuthenticatedUser) (event_id : ℕ) (db : Db) (event : Event)
    → find_event event_id db.events ≡ some event
    → can_read user event ≡ true
    → (vs : List RequestView) × (list_for_event (some user) (uuid event_id) db ≡ done vs db)
      × ((p : CancellationRequest → Bool)
          → count_if (λ v. p v.request) vs
            ≡ count_if (λ r. r.event_id == event_id && p r) db.cancellation_requests)
      × All (Shown event_id event) vs
      × NewestFirst vs
unfolding list_for_event rows_of views
list_for_event_lem user event_id db event found may = (
  views event (rows_of event_id db),
  rw (found, may) refl,
  λ p.
      count_if-views event p (rows_of event_id db)
      ∙ count_if-sort_in is_newer p (keep (λ r. r.event_id == event_id) db.cancellation_requests)
      ∙ count_if-keep p (λ r. r.event_id == event_id) db.cancellation_requests,
  Has-views event_id event (rows_of event_id db) (λ r m.
      (==_iff r.event_id event_id).0
        (keep-Has (λ x. x.event_id == event_id) db.cancellation_requests r
          (sort_in-Has is_newer r _ m)).1),
  InOrder-NewestFirst event (rows_of event_id db) (
      sort_in-InOrder is_newer is_newer_asym
        (keep (λ r. r.event_id == event_id) db.cancellation_requests)),
)
