-- ===== src/Evidence.antt =====
-- internal/evidence/evidence.go: the records of collected evidence.
pub mod Window
pub mod Redact
pub mod Observed
pub mod Summary
pub mod Collector
use incident_pilot.Common.{Option, List}
use incident_pilot.Text.{Bytes}
use incident_pilot.Time.{Time}
use incident_pilot.Json.{RawMessage}

-- an observation, not a claim
pub record Record : Type 0 where
  pub id : Bytes
  pub collection_id : Bytes
  pub incident_id : Bytes
  pub tool : Bytes
  pub source : Bytes
  pub collected_at : Time
  pub window_start : Option Time
  pub window_end : Option Time
  pub parameters : RawMessage
  pub summary : Bytes
  pub resource_ref : Bytes
  pub trace_id : Bytes
  pub payload : RawMessage

pub record Failure : Type 0 where
  pub tool : Bytes
  pub reason : Bytes

pub record Report : Type 0 where
  pub collection_id : Bytes
  pub incident_id : Bytes
  pub window_start : Time
  pub window_end : Time
  pub evidence : List Record
  pub failures : List Failure
