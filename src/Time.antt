-- ===== src/Time.antt =====
-- time.Time as a count of nanoseconds from an origin 368 days before the zero Time. RFC 3339, the
-- only source of instants besides the clock, has no instant before that origin, so that the
-- subtractions of at most a day which the program makes are exact.
use incident_pilot.Common.{ℕ, ◌*◌, Bool, eqb}

abbrev pub Time : Type 0
Time = ℕ

abbrev pub second : ℕ
second = 1000000000

abbrev pub minute : ℕ
minute = 60 * second

abbrev pub hour : ℕ
hour = 60 * minute

abbrev pub day : ℕ
day = 24 * hour

-- time.Time{}: 1 January of year 1
abbrev pub zero_time : Time
zero_time = 368 * day

-- Time.IsZero
abbrev pub is_zero : Time → Bool
is_zero t = eqb t zero_time
