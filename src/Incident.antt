-- ===== src/Incident.antt =====
-- internal/incident/incident.go: the stored incident and the signal that creates it.
use incident_pilot.Common.{Option}
use incident_pilot.Text.{Bytes}
use incident_pilot.Time.{Time}

pub data Status : Type 0 where
  detected resolved : Status

pub record Signal : Type 0 where
  pub fingerprint : Bytes
  pub alert_name : Bytes
  pub namespace : Bytes
  pub service : Bytes
  pub severity : Bytes
  pub started_at : Time
  pub resolved_at : Option Time
  pub status : Status
  pub trace_id : Bytes
  pub trace_parent : Bytes
  pub trace_state : Bytes

pub record Incident : Type 0 where
  pub id : Bytes
  pub fingerprint : Bytes
  pub alert_name : Bytes
  pub namespace : Bytes
  pub service : Bytes
  pub severity : Bytes
  pub started_at : Time
  pub detected_at : Time
  pub resolved_at : Option Time
  pub status : Status
  pub trace_id : Bytes
  pub trace_parent : Bytes
  pub trace_state : Bytes
