-- ===== src/System/Lifecycle/Calls.antt =====
-- Registering and joining a waiting list move no event's status
-- (backend/src/registrations/registrations.service.ts).
use is212_g5_t.Base.{ℕ, some, none, Option, ◌||◌, ◌==◌, ltb, leb, some_eq, find_by}
use is212_g5_t.Schema.{
  Event, AuthenticatedUser, RouteId, Refusal, Result, ok, err, find_event, has_key,
  registered_count, RegistrationStatus, Registration,
}
use is212_g5_t.Transaction.{require, gets, writes}
use is212_g5_t.Waitlist.{settle_locked, waitlist_position}
use is212_g5_t.Registrations.{
  Env, Body, WindowState, open_now, check_window, check_existing, check_status, view_of,
}
use is212_g5_t.Registrations.Checks.{
  require_attendee-Reads, require_event_id-Reads, require_visible-Reads, require_empty_body-Reads,
}
use is212_g5_t.Registrations.Registering.{
  RegistrationInput, save_registration, register_for, register_work, lift,
}
use is212_g5_t.Registrations.Joining.{save_waiting, join_for, join_work}
use is212_g5_t.System.Lifecycle.{
  Advances, Advances-throw_if, Advances-require, Advances-gets, Advances-return, Advances-then,
  Advances-before, Advances-Reads, Advances-writes, Onward-same,
}
use is212_g5_t.System.Lifecycle.Steps.{
  save_registration-Onward, save_waiting-Onward, settle_locked-Onward,
}

check_window-Advances : (w : WindowState) → Advances (check_window w)
unfolding check_window
check_window-Advances WindowState.not_open = record { onward = Onward-same }
check_window-Advances WindowState.closed = record { onward = Onward-same }
check_window-Advances WindowState.disabled = record { onward = Onward-same }
check_window-Advances open_now = record { onward = Onward-same }

check_status-Advances : (s : RegistrationStatus) → Advances (check_status s)
check_status-Advances RegistrationStatus.registered = record { onward = Onward-same }
check_status-Advances RegistrationStatus.waitlisted = record { onward = Onward-same }
check_status-Advances RegistrationStatus.withdrawn = record { onward = Onward-same }
check_status-Advances RegistrationStatus.removed = record { onward = Onward-same }
check_status-Advances RegistrationStatus.cancelled = record { onward = Onward-same }

check_existing-Advances : (o : Option Registration) → Advances (check_existing o)
unfolding check_existing
check_existing-Advances none = record { onward = Onward-same }
check_existing-Advances (some r) = check_status-Advances r.status

register_lift-Advances : (v : Result RegistrationInput) → Advances (lift v)
register_lift-Advances (ok a) = record { onward = Onward-same }
register_lift-Advances (err e) = record { onward = Onward-same }

register_for-Advances :
    (event : Event) (event_id attendee_id : ℕ) (input : RegistrationInput) (env : Env)
    → Advances (register_for event event_id attendee_id input env)
unfolding register_for
register_for-Advances event event_id attendee_id input env =
    Advances-before _ (check_window-Advances _) _ (
      Advances-then (gets (λ db. find_by (has_key event_id attendee_id) db.registrations))
        (Advances-gets _) _
        λ existing. Advances-before _ (check_existing-Advances existing) _ (
          Advances-then (gets (λ db. registered_count event_id db.registrations)) (Advances-gets _)
            _
            λ taken.
              Advances-before _
                (Advances-throw_if (leb event.registration_limit taken) Refusal.registration_full) _
                (Advances-then (writes (save_registration event_id attendee_id input env))
                  (Advances-writes _ (save_registration-Onward event_id attendee_id input env)) _
                  λ saved.
                    Advances-then (require saved Refusal.already_registered)
                      (Advances-require saved _) _
                      λ row. Advances-return (view_of row event.event_name none))))

pub register_work-Advances :
    (identity : Option AuthenticatedUser) (id : RouteId) (validated : Result RegistrationInput)
    (env : Env)
    → Advances (register_work identity id validated env)
unfolding register_work
register_work-Advances identity id validated env =
    Advances-then _ (Advances-Reads _ (require_attendee-Reads identity)) _ λ attendee.
      Advances-then _ (Advances-Reads _ (require_event_id-Reads id)) _ λ event_id.
        Advances-then _ (register_lift-Advances validated) _ λ input.
          Advances-then (gets (λ db. find_event event_id db.events)) (Advances-gets _) _ λ found.
            Advances-then _ (Advances-Reads _ (require_visible-Reads found)) _
              λ event. register_for-Advances event event_id attendee.uid input env

join_for-Advances :
    (event : Event) (event_id attendee_id : ℕ) (env : Env)
    → Advances (join_for event event_id attendee_id env)
unfolding join_for
join_for-Advances event event_id attendee_id env =
    Advances-before _
      (Advances-throw_if
        (event.organiser_id == attendee_id || some_eq event.coordinator_id attendee_id)
        Refusal.waitlist_not_permitted)
      _
      (Advances-before (writes (settle_locked event_id env.now))
        (Advances-writes _ (settle_locked-Onward event_id env.now)) _
        (Advances-before _ (check_window-Advances _) _ (
          Advances-then (gets (λ db. find_by (has_key event_id attendee_id) db.registrations))
            (Advances-gets _) _
            λ existing. Advances-before _ (check_existing-Advances existing) _ (
              Advances-then (gets (λ db. registered_count event_id db.registrations))
                (Advances-gets _) _
                λ taken.
                  Advances-before _
                    (Advances-throw_if (ltb taken event.registration_limit)
                      Refusal.waitlist_not_available)
                    _
                    (Advances-then (writes (save_waiting event_id attendee_id env))
                      (Advances-writes _ (save_waiting-Onward event_id attendee_id env)) _
                      λ saved.
                        Advances-then (require saved Refusal.already_on_waitlist)
                          (Advances-require saved _) _
                          λ row.
                            Advances-then (gets (λ db. waitlist_position db.registrations row))
                              (Advances-gets _) _
                              λ position. Advances-return (record {
                                registration_id = row.id;
                                status = RegistrationStatus.waitlisted;
                                position = position;
                                event_name = event.event_name;
                              }))))))

pub join_work-Advances :
    (identity : Option AuthenticatedUser) (id : RouteId) (body : Body) (env : Env)
    → Advances (join_work identity id body env)
unfolding join_work
join_work-Advances identity id body env =
    Advances-then _ (Advances-Reads _ (require_attendee-Reads identity)) _ λ attendee.
      Advances-before _ (Advances-Reads _ (require_empty_body-Reads body)) _ (
        Advances-then _ (Advances-Reads _ (require_event_id-Reads id)) _ λ event_id.
          Advances-then (gets (λ db. find_event event_id db.events)) (Advances-gets _) _ λ found.
            Advances-then _ (Advances-Reads _ (require_visible-Reads found)) _
              λ event. join_for-Advances event event_id attendee.uid env)
