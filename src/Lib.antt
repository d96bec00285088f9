-- ===== src/Lib.antt =====
-- A verification library of the deterministic core of the governed agent's Python tools.
--
-- The tools decide what a model may do: they check proposed effects, plans and answers before they
-- run, they route and stop a stalled run, and they issue, sign and verify what a decision rests
-- on: grants, manifests, extensions, releases and audit chains. Each is a module without input or
-- output of its own, so each is modelled by functions that run.
--
-- Base models the Python that the tools share: strings, integers, lists, sets of strings that are
-- read by membership, dictionaries in insertion order, JSON values and their canonical text, and
-- exceptions as values of `Outcome`.
--
-- Policy models tool/deterministic_policy_engine.py, which decides whether a requested effect is
-- allowed, denied or waits for an approval. Policy/Values holds `_mapping`, `_string` and
-- `_string_list`; Policy/Paths `_normalize_path`, `_path_within` and `_path_intersection`;
-- Policy/Sets `_destination_allowed`, `_intersection` and `_approval_policy_stricter`;
-- Policy/Scope `_base_scope` and `_profile_budgets`; Policy/Approval `_valid_approval`;
-- Policy/Identity `_decision_id`. The stages of `evaluate_policy` are Policy/Request (who asks,
-- for what), Policy/Overlays (the loop over the overlays), Policy/Widening (`explicitWidening`),
-- Policy/Effects (the chain on the domain of the effect) and Policy/Evaluate, which composes them
-- and drafts the grant.
--
-- Grants models tool/capability_grant_v2.py: Grants/Validate `validate_grant_json` with its parts,
-- Grants/Issue `signing_payload`, `compute_mac`, `sign_grant` and `verify_and_consume`, and
-- Grants/Ledger `GrantUseLedger`, which counts the uses of a signed grant.
--
-- Profiles models tool/access_profile_v2.py: Profiles/Validate `validate_profile`,
-- Profiles/Catalog `load_catalog` from the value that the file holds, and Profiles/Patch
-- `apply_fixture_patch`.
--
-- Trust models the files on keys and signatures: Trust/Ed25519 tool/ed25519_ref.py,
-- Trust/Canonical and Trust/Manifest tool/signed_manifest_v2.py, Trust/Compatibility
-- tool/manifest_compatibility_v2.py, Trust/KeyRegistry tool/key_registry_v2.py and
-- Trust/Checkpoints tool/signed_audit_checkpoint.py. Trust/Bytes holds the hexadecimal text of
-- bytes, which are lists of numbers.
--
-- Extensions models tool/extension_registry_v2.py on top of Trust/Manifest: Extensions/Manifest
-- `ExtensionManifestV2`, `_digest_field` and `_version_tuple`, and Extensions/Registry
-- `InstalledExtension` and `ExtensionRegistryV2`. Its `export`, which writes a file, is left out.
--
-- Release models tool/release_ops_v19.py: Release/Signing `sign_manifest` and
-- `verify_signed_manifest`, Release/Audit the audit chain, Release/Checkpoint its signed
-- checkpoints, Release/Version `parse_version`, Release/Update `SupportLifecyclePolicy` and the
-- update manifests, Release/Rollback `plan_rollback`, and Release/Profiles `PolicyProfile` and
-- `FleetConfiguration`. The random key pair and the command line are left out.
--
-- Safety models tool/agent_safety_v2.py: Safety/Context the provenance and the context envelope,
-- Safety/Injection `InjectionGuard.authorize`, Safety/Browser `BrowserPlanningPolicy.validate`,
-- Safety/Terminal `TerminalPlanningPolicy.validate`, Safety/Research
-- `ResearchAnswerPolicy.verify`, and Safety/Models the compatibility matrix and the benchmark
-- dashboard.
--
-- Intelligence models tool/execution_intelligence.py: Intelligence/Circuit `CircuitBreaker`,
-- Intelligence/Progress `SemanticProgressEngine.compare`, Intelligence/Convergence
-- `ConvergenceController.decide` on the delta that the engine computes, and Intelligence/Budget
-- `PhaseBudget.defaults`. The model router, whose scores are floating-point numbers, the
-- independent verifier and the context compactor are not modelled.
--
-- The SHA-256 of a text, the message authentication codes, the reading of ISO 8601 dates and the
-- signatures of the library `cryptography`, a record of three functions, are parameters; no
-- theorem assumes anything of them unless it says so, as `SignsWith` does in Trust/Ed25519/Laws.
-- The clock enters as an argument. Every loop of the modelled code runs over a list, so the model
-- needs no fuel, but for the decimal digits of a number, where the number of rounds is the number
-- itself. The reasons against a request are a list that is sorted and freed of duplicates at the
-- end, where the code keeps a set. The messages of exceptions are kept as texts where the code
-- compares or returns them; the text of one that only says what was wrong may leave out the
-- offending value. Digits and hexadecimal digits are ASCII, `lower` changes ASCII letters only,
-- the text of an array or an object is only known by its bracket, and `int(value)` takes a text or
-- a float for a wrong value. `copy.deepcopy` has no counterpart, since no value is changed in
-- place.
--
-- Not modelled: the tools that work on sockets, processes, files and git, the plan compiler, the
-- project manager, the knowledge memory, the protocol bridges and the gates of a release; the
-- desktop application and the services in other languages.
pub mod Base
pub mod Safety
pub mod Intelligence
pub mod Extensions
pub mod Grants
pub mod Policy
pub mod Profiles
pub mod Release
pub mod Trust
