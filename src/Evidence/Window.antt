-- ===== src/Evidence/Window.antt =====
-- `Window` of internal/evidence/evidence.go: the span of telemetry that is read for an incident.
use incident_pilot.Common.{
  ◌+◌, ◌-◌, ◌*◌, ◌≤◌, ◌<◌, ◌≡◌, refl, sym, subst, ◌⊎◌, inl, inr, Bool-cases, Option, none, some,
  ltb, not, ◌||◌, if◌then◌else◌, arith,
}
use incident_pilot.Time.{Time, second, minute, hour, day, is_zero}
use incident_pilot.Incident.{Incident}

window_end : Option Time → Time → Time
window_end none now = now
window_end (some resolved) now = if ltb resolved now then resolved else now

-- `none` is ErrWindowUnavailable
unfoldable pub window : Incident → Time → Option (Time × Time)
unfolding window_end
window inc now =
    let end = window_end inc.resolved_at now in
    if is_zero inc.started_at
      || ltb inc.started_at (now - day)
      || ltb (end + 30 * second) inc.started_at
      || ltb end (now - day)
    then none
    else let early = inc.started_at - 2 * minute in
      let start = if ltb early (end - hour) then end - hour else early in
      if not (ltb start end) then none else some (start, end)

-- the earlier of the resolution, if there is one, and now
pub data EndsAt (now end : Time) : Option Time → Type 0 where
  unresolved : end ≡ now → EndsAt now end none
  by_now : {resolved : Time} → end ≡ now → now ≤ resolved → EndsAt now end (some resolved)
  by_resolution :
      {resolved : Time} → end ≡ resolved → resolved < now → EndsAt now end (some resolved)

window_end-EndsAt : (o : Option Time) (now : Time) → EndsAt now (window_end o now) o
unfolding window_end
window_end-EndsAt none now = unresolved refl
window_end-EndsAt (some resolved) now = elim (Bool-cases (ltb resolved now)) [
  | inl e ↦ rw (e, window_end) (by_resolution refl (ground arith))
  | inr e ↦ rw (e, window_end) (by_now refl (ground arith))
]

window_parts :
    (inc : Incident) (now : Time) {start end : Time}
    → day + hour ≤ now
    → window inc now ≡ some (start, end)
    → (end ≡ window_end inc.resolved_at now)
      × ((start + 2 * minute ≡ inc.started_at) × (end ≤ start + hour)
          ⊎ (start + hour ≡ end) × (inc.started_at < start + 2 * minute))
      × (start < end)
      × (inc.started_at ≤ end + 30 * second)
      × (now ≤ inc.started_at + day)
      × (now ≤ end + day)
unfolding window
window_parts inc now late h = ground arith

-- The window of an incident ends exactly at its resolution or now, whichever is earlier, and starts
-- exactly two minutes before the incident's start or, where that is more than an hour before the
-- window's end, an hour before that end. It is not empty. The incident starts at most a day ago and
-- at most thirty seconds after the window's end, and the window ends at most a day ago. The clock
-- must read a day and an hour or more.
pub window_bounds :
    (inc : Incident) (now : Time) {start end : Time}
    → day + hour ≤ now
    → window inc now ≡ some (start, end)
    → EndsAt now end inc.resolved_at
      × ((start + 2 * minute ≡ inc.started_at) × (end ≤ start + hour)
          ⊎ (start + hour ≡ end) × (inc.started_at < start + 2 * minute))
      × (start < end)
      × (inc.started_at ≤ end + 30 * second)
      × (now ≤ inc.started_at + day)
      × (now ≤ end + day)
window_bounds inc now {end = end} late h =
    let p = window_parts inc now late h in
    (
      subst (λ t. EndsAt now t inc.resolved_at) (sym p.0) (window_end-EndsAt inc.resolved_at now),
      p.1,
      p.2,
      p.3,
      p.4,
      p.5,
    )
