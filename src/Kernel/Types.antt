-- ===== src/Kernel/Types.antt =====
-- The kernel's input and its decision: the types of src/kernel.rs.
use agentic_development_fram.Base.{String, Option, List}
use agentic_development_fram.Base.Map.{Map}
use agentic_development_fram.Json.Value.{Value}
use agentic_development_fram.Rules.Types.{Assurance}

pub record ProjectSnapshot : Type 0 where
  pub change_id : String
  pub change : Value
  pub contracts : List Value
  pub decisions : List Value
  pub results : List Value
  pub evidence : List Value
  pub repository : Value
  pub artifact_digests : Map String
  pub digest : String

pub record CandidateDisposition : Type 0 where
  pub status : String
  pub input_refs : Map String

pub record RequirementInstance : Type 0 where
  pub requirement_id : String
  pub subject_refs : List String
  pub instance_key : String
  pub selected_by : List String
  pub definition_digest : String
  pub phase : String
  pub role : String
  pub result_schema : String
  pub depends_on : List String
  pub context : List String
  pub assurance : Assurance
  pub status : String

pub record ExecutionGuidance : Type 0 where
  pub preferred_model_tier : String
  pub escalation_conditions : List String

pub record NextAction : Type 0 where
  pub id : String
  pub role : String
  pub action : String
  pub requirement_instances : List RequirementInstance
  pub reason : String
  pub expected_result_schema : String
  pub candidate_fingerprints : List String
  pub execution_guidance : ExecutionGuidance

pub record KernelDecision : Type 0 where
  pub state : String
  pub action : Option NextAction
  pub requirement_instances : List RequirementInstance
  pub diagnostics : List String

-- `decision`
abbrev pub decision :
    String → Option NextAction → List RequirementInstance → List String → KernelDecision
decision state action requirement_instances diagnostics = record {
  state = state;
  action = action;
  requirement_instances = requirement_instances;
  diagnostics = diagnostics;
}
