-- ===== src/Examples/Waitlist.antt =====
-- The waiting list at a concrete database: two places, of which one stands free, and two who wait.
use is212_g5_t.Base.{
  ℕ, ◌≡◌, ◌<◌, refl, inl, inr, true, false, [], ◌∷◌, arith, Has, count_if, update_where,
}
use is212_g5_t.Schema.{Registration, Db, waits, registered_count, waitlisted_count}
use is212_g5_t.Waitlist.{
  event_due, due_waitlist, settle_if_due, run_registration_close_job, mark_removed, settle_locked,
  sorts_before, first_waiting, promote_entry, promote_loop, fill_free_spots, row_lt,
  waitlist_position, release_waitlist_for_cancelled_event,
}
use is212_g5_t.Waitlist.Settling.{settle_if_due-eq-settle_locked}
use is212_g5_t.Waitlist.Order.{waitlist_position_order}
use is212_g5_t.Waitlist.Promotion.{UniqueIds}
use is212_g5_t.Waitlist.Fairness.{fill_free_spots_fair}
use is212_g5_t.Waitlist.Closing.{run_registration_close_job_lem}
use is212_g5_t.Waitlist.Cancelling.{OnceOnly, notified, release_waitlist_for_cancelled_event_lem}
use is212_g5_t.Examples.Sample.{sample, talk, place, waiting}

abbrev freed : Db
freed = record sample { registrations = place 5 50 ∷ waiting 7 70 40 1 ∷ waiting 8 80 41 2 ∷ [] }

freed-UniqueIds : UniqueIds freed.registrations
freed-UniqueIds i = ground arith

-- The earlier of the two is promoted; the later still waits, and does not sort before her.
fill_free_spots_fair_example : sorts_before (waiting 8 80 41 2) (waiting 7 70 40 1) ≡ false
unfolding fill_free_spots promote_loop promote_entry first_waiting sorts_before settle_locked
    due_waitlist event_due
fill_free_spots_fair_example =
    fill_free_spots_fair 1 100 freed talk (waiting 7 70 40 1) (waiting 8 80 41 2) freed-UniqueIds
      refl (inr (inl refl)) refl (inr (inl refl)) (inr (inr (inl refl))) refl

settle_if_due-eq-settle_locked_example : settle_if_due 1 950 sample ≡ settle_locked 1 950 sample
settle_if_due-eq-settle_locked_example = settle_if_due-eq-settle_locked 1 950 sample

run_registration_close_job_lem_example : run_registration_close_job 950 sample ≡ (
  count_if (due_waitlist sample.events 950) sample.registrations,
  record sample {
    registrations =
        update_where (due_waitlist sample.events 950) (mark_removed 950) sample.registrations;
  },
)
run_registration_close_job_lem_example = run_registration_close_job_lem 950 sample

waitlist_position_order_example : 1 < 2
unfolding waitlist_position row_lt
waitlist_position_order_example =
    waitlist_position_order sample.registrations (waiting 7 70 40 1) (waiting 8 80 41 2)
      (inr (inl refl)) refl refl refl 1 2 refl refl

no_notices : OnceOnly []
no_notices u e = omega arith

release_waitlist_for_cancelled_event_lem_example :
    let db' = (release_waitlist_for_cancelled_event 1 100 sample).1 in
    (waitlisted_count 1 db'.registrations ≡ 0)
    × ((k : ℕ) → registered_count k db'.registrations ≡ registered_count k sample.registrations)
    × OnceOnly db'.notifications
    × ((r : Registration)
        → Has r (settle_locked 1 100 sample).1.registrations
        → waits 1 r ≡ true
        → notified r.attendee_id 1 db'.notifications ≡ true)
release_waitlist_for_cancelled_event_lem_example =
    release_waitlist_for_cancelled_event_lem 1 100 sample no_notices
