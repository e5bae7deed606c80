-- ===== src/Schema/Events.antt =====
-- A compare-and-set on the row of one event: UPDATE events SET f WHERE id AND q.
use is212_g5_t.Base.{
  ℕ, ◌≡◌, ◌≢◌, refl, inl, inr, Bool, true, ◌&&◌, some, none, List, [], ◌∷◌, ◌==◌, arith, find_by,
  update_where, Option-cases,
}
use is212_g5_t.Schema.{Event, find_event}

module _ (event_id : ℕ) (q : Event → Bool) (f : Event → Event)
    (same_id : (e : Event) → (f e).id ≡ e.id) where
  abbrev pub names : Event → Bool
  names e = e.id == event_id && q e

  pub find_event-changed :
      (events : List Event) (e : Event)
      → find_event event_id events ≡ some e
      → q e ≡ true
      → find_event event_id (update_where names f events) ≡ some (f e)
  find_event-changed [] e h c = absurd (ground arith)
  find_event-changed (x ∷ events) e h c = ground (arith, same_id x, find_event-changed events e)

  pub find_event-other :
      (events : List Event) (k : ℕ)
      → k ≢ event_id
      → find_event k (update_where names f events) ≡ find_event k events
  find_event-other [] k ne = refl
  find_event-other (x ∷ events) k ne = ground (arith, same_id x, find_event-other events k ne)

  -- RETURNING gives a row.
  pub find_by-returning :
      (events : List Event) (e : Event)
      → find_event event_id events ≡ some e
      → q e ≡ true
      → (row : Event) × (find_by names events ≡ some row)
  find_by-returning events e h c = elim (Option-cases (find_by names events)) [
    | inl n ↦ absurd (missing events h n)
    | inr found ↦ found
  ]
    where
      missing : (xs : List Event) → find_event event_id xs ≡ some e → find_by names xs ≡ none → ⊥
      missing [] h n = ground arith
      missing (x ∷ xs) h n = ground (arith, missing xs)

-- UPDATE events SET f WHERE id.
module _ (event_id : ℕ) (f : Event → Event) (same_id : (e : Event) → (f e).id ≡ e.id) where
  pub find_event-set_self :
      (events : List Event) (e : Event)
      → find_event event_id events ≡ some e
      → find_event event_id (update_where (λ x. x.id == event_id) f events) ≡ some (f e)
  find_event-set_self [] e h = absurd (ground arith)
  find_event-set_self (x ∷ events) e h = ground (arith, same_id x, find_event-set_self events e)

  pub find_event-set_other :
      (k : ℕ) (events : List Event)
      → k ≢ event_id
      → find_event k (update_where (λ x. x.id == event_id) f events) ≡ find_event k events
  find_event-set_other k [] ne = refl
  find_event-set_other k (x ∷ events) ne =
      ground (arith, same_id x, find_event-set_other k events ne)
