-- ===== src/Readiness/Rule.antt =====
-- When an event is ready to be confirmed (backend/src/events/status/readiness.ts).
use is212_g5_t.Base.{
  ℕ, ◌≤◌, ◌<◌, ◌≡◌, ◌≢◌, refl, ◌∙◌, ◌⊎◌, inl, inr, Bool, true, false, not, ◌&&◌, ◌||◌, Option, none,
  some, List, [], ◌∷◌, ◌++◌, arith, any, all, Has, is_empty, is_empty-append, any-Has, Has-any,
  Has-keep, keep-Has, if◌then◌else◌, is_some, Bool-cases,
}
use is212_g5_t.Schema.{VenueBooking, EquipmentReservation}
use is212_g5_t.Readiness.Sorting.{sort_by}
use is212_g5_t.Readiness.{
  ReadinessSnapshot, is_approved, is_rejected, is_cancelled_booking, is_active_booking,
  is_hold_request, is_inactive, is_reserved, replaces, has_approved_replacement, venue_item,
  equipment_item, safety_item, venue_items, equipment_items, active_bookings, no_venue,
  no_equipment, push, none_requested, venue, equipment, OutstandingItem, evaluate_readiness,
  approved_hold_state,
}

-- An ordinary approved booking of an available venue.
abbrev pub is_confirmed_booking : VenueBooking → Bool
is_confirmed_booking b =
    is_approved b.status && (not (is_hold_request b.request_kind) && not b.venue_unavailable)

-- A rejected booking with another, confirmed booking of the venue over its whole slot.
abbrev pub Replaced : List VenueBooking → VenueBooking → Type 0
Replaced bookings b =
    (is_rejected b.status ≡ true)
    × (b.start_at < b.end_at)
    × ((c : VenueBooking) × Has c bookings
        × (is_confirmed_booking c ≡ true)
        × (c.id ≢ b.id)
        × (c.venue_id ≡ b.venue_id)
        × (c.start_at ≤ b.start_at)
        × (b.end_at ≤ c.end_at))

abbrev pub VenueReady : ReadinessSnapshot → Type 0
VenueReady s =
    (((b : VenueBooking) × Has b s.venue_bookings × (is_active_booking b.status ≡ true))
      ⊎ (((b : VenueBooking) × Has b s.venue_bookings)
          × ((b : VenueBooking) → Has b s.venue_bookings → is_cancelled_booking b.status ≡ false)))
    × ((b : VenueBooking)
        → Has b s.venue_bookings
        → is_active_booking b.status ≡ true
        → (is_confirmed_booking b ≡ true) ⊎ Replaced (active_bookings s.venue_bookings) b)

abbrev pub EquipmentReady : ReadinessSnapshot → Type 0
EquipmentReady s =
    ((s.equipment_none_confirmed ≡ true)
      ⊎ ((l : EquipmentReservation) × Has l s.equipment × (is_inactive l.status ≡ false)))
    × ((l : EquipmentReservation)
        → Has l s.equipment
        → is_inactive l.status ≡ false
        → is_reserved l.status ≡ true)

-- What `venue_items` and `equipment_items` make nothing of.
abbrev pub settles : List VenueBooking → ℕ → VenueBooking → Bool
settles held now b =
    (is_rejected b.status && has_approved_replacement b held) || not (is_some (venue_item b now))

venue_items_empty :
    (held : List VenueBooking) (now : ℕ) (bookings : List VenueBooking)
    → is_empty (venue_items held now bookings) ≡ all (settles held now) bookings
venue_items_empty held now [] = refl
venue_items_empty held now (b ∷ bookings) = ground (arith, venue_items_empty held now bookings)

equipment_items_empty :
    (lines : List EquipmentReservation)
    → is_empty (equipment_items lines)
      ≡ all (λ l. is_inactive l.status || is_reserved l.status) lines
unfolding equipment_item
equipment_items_empty [] = refl
equipment_items_empty (l ∷ lines) = ground (arith, equipment_items_empty lines)

pub has_replacement-Replaced :
    (held : List VenueBooking) (b : VenueBooking)
    → is_rejected b.status ≡ true
    → has_approved_replacement b held ≡ true
    → Replaced held b
unfolding has_approved_replacement
has_replacement-Replaced held b rej h =
    let (c, m, e) = any-Has (replaces b) held (ground arith) in
    (
      rej,
      ground arith,
      (c, m, ground arith, (λ same. ground arith), ground arith, ground arith, ground arith),
    )

pub Replaced-has_replacement :
    (held : List VenueBooking) (b : VenueBooking)
    → Replaced held b
    → has_approved_replacement b held ≡ true
unfolding has_approved_replacement
Replaced-has_replacement held b (rej, lt, (c, m, conf, ne, place, start, finish)) =
    ground (arith, Has-any (replaces b) held c m (ground arith))

venue_item_lem :
    (b : VenueBooking) (now : ℕ) → (not (is_some (venue_item b now))) ≡ is_confirmed_booking b
unfolding venue_item approved_hold_state
venue_item_lem b now = ground arith

pub settles-Venue :
    (held : List VenueBooking) (now : ℕ) (b : VenueBooking)
    → settles held now b ≡ true
    → (is_confirmed_booking b ≡ true) ⊎ Replaced held b
settles-Venue held now b h = elim (Bool-cases (is_confirmed_booking b)) [
  | inl confirmed ↦ inl confirmed
  | inr other ↦ inr (
      has_replacement-Replaced held b (ground (arith, venue_item_lem b now))
        (ground (arith, venue_item_lem b now)))
]

pub Venue-settles :
    (held : List VenueBooking) (now : ℕ) (b : VenueBooking)
    → (is_confirmed_booking b ≡ true) ⊎ Replaced held b
    → settles held now b ≡ true
Venue-settles held now b (inl confirmed) = ground (arith, venue_item_lem b now)
Venue-settles held now b (inr replaced) =
    ground (arith, replaced.0, Replaced-has_replacement held b replaced)

abbrev pub outstanding_free : ReadinessSnapshot → ℕ → Bool
outstanding_free s now =
    not (no_venue s.venue_bookings)
    && (all (settles (active_bookings s.venue_bookings) now)
          (sort_by (λ b. b.id) (active_bookings s.venue_bookings))
        && (all (λ l. is_inactive l.status || is_reserved l.status)
              (sort_by (λ line. line.id) s.equipment)
            && (not (no_equipment s) && not (is_some (safety_item s.safety)))))

is_empty-if : {A : Type 0} (b : Bool) (x : A) → is_empty (if b then x ∷ [] else []) ≡ not b
is_empty-if true x = refl
is_empty-if false x = refl

is_empty-push : (o : Option OutstandingItem) → is_empty (push o []) ≡ not (is_some o)
is_empty-push none = refl
is_empty-push (some item) = refl

is_empty-five :
    {A : Type 0} (ws bs cs ds es : List A)
    → is_empty (ws ++ (bs ++ (cs ++ (ds ++ es))))
      ≡ (is_empty ws && (is_empty bs && (is_empty cs && (is_empty ds && is_empty es))))
is_empty-five ws bs cs ds es =
    rw
      (
        is_empty-append ws (bs ++ (cs ++ (ds ++ es))),
        is_empty-append bs (cs ++ (ds ++ es)),
        is_empty-append cs (ds ++ es),
        is_empty-append ds es,
      )
      refl

pub ready_lem :
    (s : ReadinessSnapshot) (now : ℕ) → (evaluate_readiness s now).ready ≡ outstanding_free s now
unfolding evaluate_readiness
ready_lem s now =
    let held = active_bookings s.venue_bookings in
    let bookings = sort_by (λ b. b.id) held in
    let lines = sort_by (λ line. line.id) s.equipment in
    is_empty-five
      (if no_venue s.venue_bookings then none_requested venue "None requested" ∷ [] else [])
      (venue_items held now bookings) (equipment_items lines)
      (if no_equipment s then none_requested equipment "Not requested" ∷ [] else [])
      (push (safety_item s.safety) [])
    ∙ rw
        (
          is_empty-if (no_venue s.venue_bookings) (none_requested venue "None requested"),
          venue_items_empty held now bookings,
          equipment_items_empty lines,
          is_empty-if (no_equipment s) (none_requested equipment "Not requested"),
          is_empty-push (safety_item s.safety),
        )
        refl

pub is_empty-Has : {A : Type 0} (xs : List A) → is_empty xs ≡ false → (a : A) × Has a xs
is_empty-Has [] h = absurd (ground arith)
is_empty-Has (x ∷ xs) h = (x, inl refl)

pub Has-is_empty : {A : Type 0} (xs : List A) (a : A) → Has a xs → is_empty xs ≡ false
Has-is_empty [] a m = absurd m
Has-is_empty (x ∷ xs) a m = refl

pub no_venue-Venue :
    (bookings : List VenueBooking)
    → no_venue bookings ≡ false
    → ((b : VenueBooking) × Has b bookings × (is_active_booking b.status ≡ true))
      ⊎ (((b : VenueBooking) × Has b bookings)
          × ((b : VenueBooking) → Has b bookings → is_cancelled_booking b.status ≡ false))
no_venue-Venue bookings h = elim (Bool-cases (is_empty (active_bookings bookings))) [
  | inr some_active ↦
      let (b, m) = is_empty-Has (active_bookings bookings) some_active in
      let (n, e) = keep-Has (λ b. is_active_booking b.status) bookings b m in inl (b, n, e)
  | inl none_active ↦ inr (
    is_empty-Has bookings (ground arith),
    λ b m. elim (Bool-cases (is_cancelled_booking b.status)) [
      | inr kept ↦ kept
      | inl gone ↦
          absurd (ground (arith, Has-any (λ b. is_cancelled_booking b.status) bookings b m gone))
    ],
  )
]

pub Venue-no_venue :
    (bookings : List VenueBooking)
    → ((b : VenueBooking) × Has b bookings × (is_active_booking b.status ≡ true))
      ⊎ (((b : VenueBooking) × Has b bookings)
          × ((b : VenueBooking) → Has b bookings → is_cancelled_booking b.status ≡ false))
    → no_venue bookings ≡ false
Venue-no_venue bookings (inl (b, m, e)) = ground (
  arith,
  Has-is_empty (active_bookings bookings) b
      (Has-keep (λ b. is_active_booking b.status) bookings b m e),
)
Venue-no_venue bookings (inr ((b, m), kept)) =
    elim (Bool-cases (any (λ b. is_cancelled_booking b.status) bookings)) [
      | inl gone ↦
          let (c, n, e) = any-Has (λ b. is_cancelled_booking b.status) bookings gone in
          absurd (ground (arith, kept c n))
      | inr none_gone ↦ ground (arith, Has-is_empty bookings b m)
    ]
