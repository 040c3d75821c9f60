-- ===== src/Rules/Cycles.antt =====
-- The search for a dependency cycle: `assert_acyclic` of src/rules.rs.
use agentic_development_fram.Base.{
  String, ℕ, zero, suc, not, none, some, List, [], ◌∷◌, map, filter, length, ◌==◌, Result, ok, err,
  ◌>>=◌, if◌then◌else◌,
}
use agentic_development_fram.Base.Map
use agentic_development_fram.Base.Map.{Map}
use agentic_development_fram.Contracts.Scope.{member}
use agentic_development_fram.Rules.Types.{RequirementDefinition}

-- `cycle` carries the id of the message; `out_of_fuel` is the model's own.
pub data VisitError : Type 0 where
  cycle : String → VisitError
  out_of_fuel : VisitError

pub record Marks : Type 0 where
  pub visiting : List String
  pub visited : List String

-- `requirements[id].depends_on`; the caller has checked that every dependency is an id.
unfoldable pub depends_on : Map RequirementDefinition → String → List String
depends_on requirements id = elim (Map.get id requirements) [
  | none ↦ []
  | some definition ↦ definition.depends_on
]

-- The `for` loop over ids, with the call that its body makes.
unfoldable pub visit_all :
    (String → Marks → Result VisitError Marks) → List String → Marks → Result VisitError Marks
visit_all visit_one [] marks = ok marks
visit_all visit_one (id ∷ ids) marks =
    visit_one id marks >>= λ marks'. visit_all visit_one ids marks'

-- `visiting.insert(id)`, and `visiting.remove(id); visited.insert(id)`
abbrev pub enter : String → Marks → Marks
enter id marks = record marks { visiting = id ∷ marks.visiting }

abbrev pub leave : String → Marks → Marks
leave id marks = record {
  visiting = filter (λ other. not (other == id)) marks.visiting;
  visited = id ∷ marks.visited;
}

unfoldable pub visit : Map RequirementDefinition → ℕ → String → Marks → Result VisitError Marks
visit requirements zero id marks = err out_of_fuel
visit requirements (suc fuel) id marks =
    let deeper =
      visit_all (visit requirements fuel) (depends_on requirements id) (enter id marks)
      >>= λ marks'. ok (leave id marks') in
    if member id marks.visiting
    then err (cycle id)
    else if member id marks.visited
    then ok marks
    else deeper

abbrev pub keys : {V : Type 0} → Map V → List String
keys entries = map (λ entry. entry.0) entries

abbrev pub no_marks : Marks
no_marks = record { visiting = []; visited = [] }

-- A path holds each id at most once, so one step more than there are ids is fuel enough.
unfoldable pub search_cycle : Map RequirementDefinition → Result VisitError Marks
search_cycle requirements =
    visit_all (visit requirements (suc (length requirements))) (keys requirements) no_marks
