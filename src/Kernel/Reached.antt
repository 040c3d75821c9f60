-- ===== src/Kernel/Reached.antt =====
-- The instances of the active rules reach the decision (`evaluate_with_health` of src/kernel.rs).
use mathlib.Core.List.Memᴰ
use agentic_development_fram.Base.{String, false, ◌≡◌, ◌⊎◌, List, Memᴰ}
use agentic_development_fram.Base.Map
use agentic_development_fram.Kernel.Types.{ProjectSnapshot, RequirementInstance}
use agentic_development_fram.Kernel.Collect.{is_retained}
use agentic_development_fram.Kernel.ReviewOnly.{IsReviewOnly}

-- An instance with the key and the definition is among them.
pub record HasInstance (key digest : String) (instances : List RequirementInstance) : Type 0 where
  pub instance_of : RequirementInstance
  pub listed : Memᴰ instance_of instances
  pub of_key : instance_of.instance_key ≡ key
  pub of_definition : instance_of.definition_digest ≡ digest

-- The instance is evidence-backed with clauses for review only, and is not retained, or it is none of
-- these and has reached the collected instances.
abbrev pub IsDroppedOrHeld :
    ProjectSnapshot → List RequirementInstance → RequirementInstance → Type 0
IsDroppedOrHeld snapshot collected i =
    ((is_retained snapshot i ≡ false) × IsReviewOnly snapshot i)
    ⊎ ((¬ IsReviewOnly snapshot i) × HasInstance i.instance_key i.definition_digest collected)
