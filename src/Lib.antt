-- ===== src/Lib.antt =====
-- The control plane of the Agentic Development Framework, which says what a Change of a repository
-- needs next. Its core is a chain of pure functions, and this library models the chain.
--
-- The parts and how they interact:
--
--  - The Rule Compiler (src/rules.rs) reads a rule source and makes a Rule Index: requirements, with
--    their phase, role, result schema and dependencies, and rules, which activate them always or for a
--    signal. It asks the schema registry (src/schema.rs) for the roles of a result schema and the signal
--    catalog (src/signal_catalog.rs) for the bindings of a signal. Module Rules.
--  - The Thin Kernel (src/kernel.rs) takes a snapshot of the project, the Rule Index, the report of the
--    detectors (src/detection.rs) and the Contract health report (src/contract_health.rs), and returns
--    a state, with the action that somebody has to take. Module Kernel.
--  - Contract scope (src/contract_scope.rs) says which clauses of a Contract a Change touches and what
--    Evidence they need. Module Contracts.
--  - Contract health (src/contract_health.rs) derives the status of each clause from the Evidence and the
--    Builder's results, with what the Schema Registry validates, and the gate
--    (src/contract_health_gate.rs) turns the report into a pass or a failure. Modules Contracts.Health
--    and Contracts.Gate.
--  - The Schema Registry (src/schema.rs) loads the bundle of JSON Schemas, looks up result schemas and
--    their roles, and validates Records and generated documents. Module Schema.
--  - Delivery (src/delivery.rs) resolves the release that a Framework lock names: it verifies the
--    manifest's signature by the project's trusted keys, the files of the release and the digests that
--    the lock pins, and hands the rule source to the Rule Compiler and the loaded registry to it and to
--    the validation of Records. Module Delivery.
--  - Canonical JSON (src/lib.rs) gives every definition and action its identity. Module Json.
--
-- How the modules follow the code:
--
--  - Base has Rust's Option, Result and iterator methods, BTreeMap as a sorted association list, the
--    byte order of texts, and stable sorting.
--  - Json.Value is serde_json's Value, with the path readers of the kernel. Json.Canonical is
--    `canonical_json`, `canonical_digest` and `write_canonical`. SHA-256 and the quotation of a text are
--    fields of `Crates`, an argument of all that makes a digest; no theorem assumes anything of them.
--  - Contracts.Scope has all functions of src/contract_scope.rs; Contracts.Health has the
--    report's types. Contracts.Health.Freshness, Clause and Report follow src/contract_health.rs, where
--    the loop of `clause_health` is two folds over a record of its variables. Detection.Types and
--    Schema.Registry have the types and lookups of their files that the kernel and the compiler use.
--  - Rules.Fields reads the fields of a source, Rules.Requirements and Rules.Compile are
--    `compile_rule_index_with_registry`, whose loops are functions of their own, and Rules.Cycles is
--    `assert_acyclic`. An error is its message.
--  - Schema.Keywords has the tests of `validate_value` that look at one value, Schema.Validate the ones
--    that go inside it, and `validate_json_document`. Schema.Validate.Conforms is the specification, a
--    predicate with no order of checks. Schema.Load is `SchemaRegistry::load` and Schema.Records its
--    `validate` and `validate_result_payload`. An error has its path and a reason for its text.
--  - Delivery.Hex, Fields, Trust, Inventory, Manifest and Release follow src/delivery.rs upwards, from
--    `decode_hex` to `resolve_verified_release_for`; `encode_hex` is that of src/release_publisher.rs. A
--    release's directory is a tree whose files show their digests, or that they cannot be read.
--  - Kernel.Freshness, Candidates, Evidence, Instances, Selection and Actions have the kernel's helper
--    functions under their own names. `evaluate_with_health` is Kernel.Evaluate: it collects the
--    instances and sets their status (Kernel.Collect) and then goes through its early returns, each a
--    function into Option in Kernel.Steps, in the order of the code.
--  - The proofs stand beside the definitions, in modules named for what they show: Rules.Decides,
--    Compiled and Index; Kernel.Batch, Reviews, Reviewed, Support, Clauses, Required, Requests,
--    Merged, Selected, Held, Activated, Keys, ReviewOnly, Dropped, Reached, Merging, Progress, Sound, Collected,
--    Valid, Issued, Ready. Schema.Load.Loaded and Read are about the loaded registry, and
--    Schema.Validate.ReadPart and Unread about the keywords that the validator does not read. Tests has a
--    small project that runs.
--
-- Bounds and fuel. The recursion of `assert_acyclic` is on fuel, one more than there are requirements.
-- A path of the search holds each requirement at most once, so the fuel never runs out; the theorem on
-- the cycle search shows this, since it says that a search without a cycle is accepted. The recursion of
-- `validate_value` is on fuel, one more than the depth of the schema, since each call takes a schema
-- inside its own; the theorem on conformance shows that it never runs out. No other function has fuel.
-- Bytes are numbers below 256, and `high << 4 | low` keeps the wrap-around. Other numbers are only printed and compared.
--
-- What a panic of the code becomes. `expect` on a digest gives the empty text in the model, and is
-- reached only with a floating-point number in the value, which the kernel's own values do not have.
-- The `expect`s of `SchemaRegistry::validate` are a failure
-- of their own, `panic`, and an index that is not there in the file inventory is an error. A rule whose
-- requirement is not in the index gives an error, and a detection gap without a kind or
-- reason an empty text there.
--
-- Arguments. The schema validator takes `Regex::new` and the text of a value (`Libraries`); Delivery
-- takes the curve (`Ed25519`), the framework catalog (`Catalogs`), what the paths of a release lead to,
-- and what is read from the files. No theorem assumes anything of them.
--
-- What is not modelled: the files and commands around the core (storage, Git, migration, the copying
-- and switching of releases, the runners, the detectors' syntax trees, the command line), the JSON
-- projections for the golden suites (`compatibility_checkpoint`, `compatibility_value`), and, so far, the
-- signal catalog's checks, submissions and action contexts.
pub mod Base
pub mod Json
pub mod Contracts
pub mod Schema
pub mod Detection
pub mod Rules
pub mod Delivery
pub mod Kernel
pub mod Tests
