-- ===== src/Detection/Types.antt =====
-- The report of the Detector: the types of src/detection.rs, and the signals of
-- src/signal_catalog.rs.
use agentic_development_fram.Base.{String, Option, List}
use agentic_development_fram.Base.Map
use agentic_development_fram.Base.Map.{Map}

pub record SignalCandidate : Type 0 where
  pub signal : String
  pub bindings : Map String
  pub evidence_refs : List String
  pub detector_id : String
  pub detector_version : String
  pub fingerprint : String
  pub evidence_digest : String

pub record DetectionCoverage : Type 0 where
  pub status : String
  pub scope : String
  pub analyzed_refs : List String
  pub gaps : List (Map String)

pub record DetectionReport : Type 0 where
  pub change_id : String
  pub coverage : DetectionCoverage
  pub candidates : List SignalCandidate
  pub digest : String

pub record SignalDefinition : Type 0 where
  pub id : String
  pub domain : String
  pub detector_id : String
  pub detector_version : String
  pub bindings : List String
  pub activates : List String

-- The registry's lookup of a signal. The built-in definitions are its `signals`.
pub record SignalCatalogRegistry : Type 0 where
  pub signals : Map SignalDefinition

unfoldable pub signal_definition : SignalCatalogRegistry → String → Option SignalDefinition
signal_definition registry signal = Map.get signal registry.signals
