-- ===== src/Alarm/Rule.antt =====
-- Rules, samples, maintenance windows and events of backend/internal/engine/alarm_engine.go.
use metalwatch.Base.{String, Bool, true, false, ◌&&◌, ◌||◌, not, ltb, str_eq, if◌then◌else◌}
use metalwatch.Base.Clock.{Time, Duration}
use metalwatch.Base.Float.{Float64, flt, fle, feq}

-- The six strings of the source, and any other, for which `Match` falls through.
pub data Comparator : Type 0 where
  gt gte lt lte eq ne : Comparator
  other : String → Comparator

unfoldable pub matches : Comparator → Float64 → Float64 → Bool
matches gt v threshold = flt threshold v
matches gte v threshold = fle threshold v
matches lt v threshold = flt v threshold
matches lte v threshold = fle v threshold
matches eq v threshold = feq v threshold
matches ne v threshold = not (feq v threshold)
matches (other s) v threshold = false

pub record AlarmRule : Type 0 where
  pub id : String
  pub metric : String
  pub comparator : Comparator
  pub threshold : Float64
  pub for_duration : Duration
  pub level : String
  pub host : String
  pub parent : String
  pub active_key : String
  pub enabled : Bool

pub record MaintenanceWindow : Type 0 where
  pub start : Time
  pub end : Time
  pub host : String

unfoldable pub covers : MaintenanceWindow → Time → String → Bool
covers m t host =
    if ltb t m.start || not (ltb t m.end)
    then false
    else if not (str_eq m.host "") && not (str_eq m.host host)
    then false
    else true

pub record Sample : Type 0 where
  pub metric : String
  pub value : Float64
  pub host : String
  pub at : Time
  pub object : String

pub data EventState : Type 0 where
  firing recovered suppressed muted : EventState

pub record AlarmEvent : Type 0 where
  pub active_key : String
  pub rule_id : String
  pub host : String
  pub object : String
  pub level : String
  pub state : EventState
  pub message : String
  pub at : Time
