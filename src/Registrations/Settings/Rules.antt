-- ===== src/Registrations/Settings/Rules.antt =====
-- validateRegistrationSettings (backend/src/registrations/settings/registration-settings.validation.ts).
use is212_g5_t.Base.{
  ℕ, ◌≤◌, ◌<◌, ◌≡◌, Bool, true, false, not, ◌&&◌, ◌||◌, Option, none, some, ltb, leb, if◌then◌else◌,
  is_some, arith,
}
use is212_g5_t.Schema.{Refusal, Result, ok, err}

pub record SavedSettings : Type 0 where
  pub registration_enabled : Bool
  pub opens_at : Option ℕ
  pub closes_at : Option ℕ
  pub capacity : ℕ

-- A capacity in the body: a whole number from 0, or any other JSON value.
pub data CapacityValue : Type 0 where
  whole : ℕ → CapacityValue
  not_whole : CapacityValue

pub record SettingsPatch : Type 0 where
  pub registration_enabled : Option Bool
  pub opens_at : Option ℕ
  pub closes_at : Option ℕ
  pub capacity : Option CapacityValue

-- MAX_REGISTRATION_CAPACITY, the signed 32-bit maximum.
abbrev pub max_registration_capacity : ℕ
max_registration_capacity = 2147483647

abbrev pub or_saved {ℓ} : {A : Type ℓ} → Option A → A → A
or_saved none saved = saved
or_saved (some a) saved = a

abbrev capacity_or : Option CapacityValue → ℕ → CapacityValue
capacity_or none saved = whole saved
capacity_or (some c) saved = c

abbrev either : Option ℕ → Option ℕ → Option ℕ
either none saved = saved
either (some a) saved = some a

-- `closesAt <= opensAt`, when both are set.
abbrev closes_too_early : Option ℕ → Option ℕ → Bool
closes_too_early (some opens) (some closes) = leb closes opens
closes_too_early _ _ = false

-- `closesAt > startsAt`, when it is set.
abbrev closes_too_late : Option ℕ → ℕ → Bool
closes_too_late (some closes) starts = ltb starts closes
closes_too_late none starts = false

unfoldable pub decide_settings :
    Bool → Option ℕ → Option ℕ → ℕ → Bool → ℕ → ℕ → Result SavedSettings
decide_settings enabled opens closes capacity given starts confirmed =
    if ltb max_registration_capacity capacity
    then err Refusal.capacity_too_large
    else if given && (closes_too_early opens closes || closes_too_late closes starts)
    then err Refusal.invalid_period
    else if enabled && not (is_some opens && is_some closes)
    then err Refusal.incomplete
    else if ltb capacity confirmed
    then err Refusal.capacity_below_confirmed
    else ok (record {
      registration_enabled = enabled;
      opens_at = opens;
      closes_at = closes;
      capacity = capacity;
    })

abbrev decide_capacity : CapacityValue → (ℕ → Result SavedSettings) → Result SavedSettings
decide_capacity not_whole rest = err Refusal.invalid_capacity
decide_capacity (whole c) rest = if ltb c 1 then err Refusal.invalid_capacity else rest c

unfoldable pub validate_registration_settings :
    SavedSettings → SettingsPatch → ℕ → ℕ → Result SavedSettings
unfolding decide_settings
validate_registration_settings saved patch starts confirmed =
    decide_capacity (capacity_or patch.capacity saved.capacity) λ capacity.
      decide_settings (or_saved patch.registration_enabled saved.registration_enabled)
        (either patch.opens_at saved.opens_at) (either patch.closes_at saved.closes_at) capacity
        (is_some patch.opens_at || is_some patch.closes_at) starts confirmed

-- Settings that are accepted fit: a whole capacity from 1 to the column's maximum that covers the
-- confirmed attendees; both ends of the period when registration is enabled; and, when the request
-- gives a date-time and both ends are set, a close after the opening and no later than the start.
pub validate_registration_settings_sound :
    (saved : SavedSettings) (patch : SettingsPatch) (starts confirmed : ℕ) (next : SavedSettings)
    → validate_registration_settings saved patch starts confirmed ≡ ok next
    → (1 ≤ next.capacity)
      × (next.capacity ≤ max_registration_capacity)
      × (confirmed ≤ next.capacity)
      × (next.registration_enabled ≡ true
          → (is_some next.opens_at ≡ true) × (is_some next.closes_at ≡ true))
      × ((is_some patch.opens_at || is_some patch.closes_at) ≡ true
          → (opens closes : ℕ) → next.opens_at ≡ some opens
          → next.closes_at ≡ some closes
          → (opens < closes) × (closes ≤ starts))
unfolding validate_registration_settings
validate_registration_settings_sound saved patch starts confirmed next h =
    (ground arith, ground arith, ground arith, λ e. ground arith, λ g o c p q. ground arith)
