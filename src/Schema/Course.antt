-- ===== src/Schema/Course.antt =====
-- What a call may do to the events besides the status endpoint: nothing to their limits, and of their
-- statuses only the start of the planning.
use is212_g5_t.Base.{
  ℕ, ◌≡◌, refl, sym, ap, ◌∙◌, ◌⊎◌, inl, inr, Bool, true, ◌==◌, none, some, arith, Bool-cases,
  Option-cases, update_where, find_by-update_where, if◌then◌else◌,
}
use mathlib.Core.Option
use is212_g5_t.Schema.{Event, EventStatus, Db, find_event}

-- The same status, or Approved and then Planning.
abbrev pub StartsAtMost : EventStatus → EventStatus → Type 0
StartsAtMost s t = (t ≡ s) ⊎ ((s ≡ EventStatus.approved) × (t ≡ EventStatus.planning))

-- An event that is there before and after.
pub record Altered (k : ℕ) (db db' : Db) : Type 0 where
  pub old : Event
  pub new : Event
  pub before : find_event k db.events ≡ some old
  pub after : find_event k db'.events ≡ some new
  pub same_limit : new.registration_limit ≡ old.registration_limit
  pub starts : StartsAtMost old.status new.status

pub record Course (db db' : Db) : Type 0 where
  pub registrations : db'.registrations ≡ db.registrations
  pub events : (k : ℕ) → (find_event k db'.events ≡ find_event k db.events) ⊎ Altered k db db'

pub Course-kept :
    (db db' : Db) → db'.registrations ≡ db.registrations → db'.events ≡ db.events → Course db db'
Course-kept db db' rows events = record {
  registrations = rows;
  events = λ k. inl (ap (find_event k) events);
}

pub Course-same : (db : Db) → Course db db
Course-same db = Course-kept db db refl refl

starts_trans : (r s t : EventStatus) → StartsAtMost r s → StartsAtMost s t → StartsAtMost r t
starts_trans r s t (inl e) (inl f) = inl (f ∙ e)
starts_trans r s t (inl e) (inr (a, p)) = inr (sym e ∙ a, p)
starts_trans r s t (inr (a, p)) (inl f) = inr (a, f ∙ p)
starts_trans r s t (inr (a, p)) (inr (b, q)) = absurd (ground arith)

pub Course-trans : (a b c : Db) → Course a b → Course b c → Course a c
Course-trans a b c p q = record {
  registrations = q.registrations ∙ p.registrations;
  events = λ k. along k (p.events k) (q.events k);
}
  where
    along :
        (k : ℕ)
        → (find_event k b.events ≡ find_event k a.events) ⊎ Altered k a b
        → (find_event k c.events ≡ find_event k b.events) ⊎ Altered k b c
        → (find_event k c.events ≡ find_event k a.events) ⊎ Altered k a c
    along k (inl e) (inl f) = inl (f ∙ e)
    along k (inl e) (inr x) = inr record {
      old = x.old;
      new = x.new;
      before = sym e ∙ x.before;
      after = x.after;
      same_limit = x.same_limit;
      starts = x.starts;
    }
    along k (inr x) (inl f) = inr record {
      old = x.old;
      new = x.new;
      before = x.before;
      after = f ∙ x.after;
      same_limit = x.same_limit;
      starts = x.starts;
    }
    along k (inr x) (inr y) =
        let same : y.old ≡ x.new = cc (y.before, x.after) in
        inr record {
          old = x.old;
          new = y.new;
          before = x.before;
          after = y.after;
          same_limit = y.same_limit ∙ ap (λ e. e.registration_limit) same ∙ x.same_limit;
          starts =
              starts_trans x.old.status x.new.status y.new.status x.starts (rw (sym same) y.starts);
        }

-- An update of some events that keeps their limits and starts at most their planning.
pub update-Course :
    (p : Event → Bool) (f : Event → Event) (db : Db)
    → ((e : Event) → (f e).id ≡ e.id)
    → ((e : Event) → (f e).registration_limit ≡ e.registration_limit)
    → ((e : Event) → p e ≡ true → StartsAtMost e.status (f e).status)
    → Course db (record db { events = update_where p f db.events })
update-Course p f db same_id same_limit starts = record {
  registrations = refl;
  events = λ k. at k (Option-cases (find_event k db.events));
}
  where
    changed : Event → Event
    changed e = if p e then f e else e

    found :
        (k : ℕ)
        → find_event k (update_where p f db.events) ≡ Option.map changed (find_event k db.events)
    found k =
        find_by-update_where (λ e. e.id == k) p f db.events (λ e. ap (λ i. i == k) (same_id e))

    at :
        (k : ℕ)
        → (find_event k db.events ≡ none) ⊎ ((e : Event) × (find_event k db.events ≡ some e))
        → (find_event k (update_where p f db.events) ≡ find_event k db.events)
          ⊎ Altered k db (record db { events = update_where p f db.events })
    at k (inl gone) = inl (found k ∙ ap (Option.map changed) gone ∙ sym gone)
    at k (inr (e, there)) = elim (Bool-cases (p e)) [
      | inr passes ↦ inl (found k ∙ ap (Option.map changed) there ∙ rw passes (sym there))
      | inl hit ↦ inr record {
        old = e;
        new = f e;
        before = there;
        after = found k ∙ ap (Option.map changed) there ∙ rw hit refl;
        same_limit = same_limit e;
        starts = starts e hit;
      }
    ]
