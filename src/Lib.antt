-- ===== src/Lib.antt =====
-- Verification of the event-planning backend (backend/src), a NestJS program over PostgreSQL.
--
-- The parts and how they interact. Attendees register for a confirmed event, or wait when it is full
-- (registrations/). Coordinators plan an event until its venue, equipment and safety check are ready,
-- and confirm, complete or cancel it (events/status, events/cancel). Cancelling calls one releaser
-- per table, in order; withdrawing and raising the capacity call the promotion of the waiting list;
-- every reader of the list settles it first.
--
-- The model. A service call is a function of the identity, the request, the instants and the
-- database, and gives its result or refusal with the database after it. Transaction.antt has the
-- monad: a transaction commits what its steps wrote or leaves the database as it was
-- (DatabaseService.transaction). The event row lock serialises the transactions of one event, so
-- each transaction is one step. SELECT, UPDATE and INSERT are find_by, keep, update_where and cons on
-- lists of rows; ON CONFLICT is a test before the insert.
--
--   Schema        the tables, the users and the refusals (database/postgresql/init/001_schema.sql)
--   Transaction   backend/src/database/database.service.ts
--   Waitlist      backend/src/registrations/waitlist: settleLocked is settle_locked, settleIfDue
--                 settle_if_due, fillFreeSpots fill_free_spots, WAITLIST_POSITION_SQL
--                 waitlist_position, runRegistrationCloseJob run_registration_close_job
--   Registrations backend/src/registrations/registrations.service.ts (register, joinWaitlist,
--                 withdraw, findMine) and settings/ (update, validateRegistrationSettings)
--   Readiness     backend/src/events/status/readiness.ts (evaluateReadiness)
--   Checklist     backend/src/events/status/checklist.ts (buildChecklist)
--   Cancel        backend/src/events/cancel and the five releasers
--   Status        backend/src/events/status/status.service.ts (changeStatus, confirm, complete); its
--                 child Planning has requestSafetyCheck, confirmNoEquipment, setFeedbackResolution
--   Notices       the notices of change and cancellation requests (backend/src/events/change-requests/
--                 change-request-notice.ts, cancellation-requests/cancellation-request-notice.ts)
--   Lead          backend/src/lead/lead-assignment.service.ts (assign, reassign)
--   CancellationRequests  backend/src/events/cancellation-requests (create, listForEvent, decide,
--                 validateCreateBody, validateDecisionBody, displayStatusOf)
--   Report        backend/src/registrations/report: buildCsv is build_csv; its children Filter
--                 (parseReportStatusFilter), Listing (getReport, the export route); Reader is a
--                 reader of CSV by RFC 4180 that is not in the program and judges its output
--   Venues        backend/src/venues/repository/venues.repository.ts: Decisions has
--                 approveVenueBooking and rejectVenueBooking, Holds the hold actions and the two jobs,
--                 Requests the submissions and cancelCoordinatorBooking, Notices the notices of
--                 venues/review, Service the endpoints of venues.service.ts, Runs calls in the order
--                 of time; a blocked row is an Unavailability
--   System        the calls of these services one after another, those of the venues included: Runs
--                 has the tables after them, Lifecycle the status of each event
--   Examples      the theorems at a small database
--
-- Representation. A uuid is a number, and a text that is no uuid is RouteId.malformed; an instant is
-- the milliseconds of a Date, so times in the snapshot always parse; the database's integers are
-- natural numbers. A Set of recipients is a list without repetition. The promotion loop is recursion
-- on the number of free places, which is what bounds it in the code; no fuel is used anywhere. The
-- body of a registration and of a settings request come already parsed, as a result or a refusal.
-- gen_random_uuid gives Env.new_id; that it is fresh is a hypothesis where it matters.
--
-- The permission that RbacService reads for Venue Staff is an input, as is a parsed request body. A
-- window's setup time is moved to the other side of the comparison, since subtraction stops at 0.
-- The unique index on a pending cancellation request is the backstop of create; the event lock
-- serialises the calls, so its violation is not a branch here. A CSV is a list of code points, before
-- the encoding in UTF-8; the calendar of Asia/Singapore, which Intl gives, is UTC+8 on the Gregorian
-- calendar, from 1970 on.
--
-- Not modelled: the parsing of most request bodies, the other operations of StatusService (the
-- removal of requests, the histories), venue records and unavailable periods, equipment, change
-- requests, the lists of the Lead, the drawing of the PDF, the triggers of the database, and the
-- frontend.
pub mod Base
pub mod Schema
pub mod Transaction
pub mod Waitlist
pub mod Registrations
pub mod Readiness
pub mod Checklist
pub mod Cancel
pub mod Status
pub mod Notices
pub mod Lead
pub mod CancellationRequests
pub mod Report
pub mod Venues
pub mod System
pub mod Examples
