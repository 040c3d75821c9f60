-- ===== src/Rules/Types.antt =====
-- The compiled Rule Index: the types of src/rules.rs.
use agentic_development_fram.Base.{String, Option, List}
use agentic_development_fram.Base.Map.{Map}

pub data Assurance : Type 0 where
  attestation evidence_backed : Assurance

pub record RequirementDefinition : Type 0 where
  pub id : String
  pub phase : String
  pub role : String
  pub result_schema : String
  pub depends_on : List String
  pub context : List String
  pub assurance : Assurance
  pub definition_digest : String

pub record ActivationRule : Type 0 where
  pub id : String
  pub requirement_id : String
  pub condition : String
  pub signal : Option String
  pub repository_phase : Option String
  pub subjects : List String

pub record RuleIndex : Type 0 where
  pub requirements : Map RequirementDefinition
  pub rules : List ActivationRule
  pub digest : String
