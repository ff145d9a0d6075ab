-- ===== src/Lib.antt =====
-- Verification of parts of Infrawright, the Go program under go/.
--
-- Infrawright turns collected provider resources into Terraform configuration with import blocks
-- (transform, tfrender), plans it, and assesses the plan against a drift policy before it is applied
-- (plan, assessment, metadata). Reads are charged to a budget (artifacts).
--
-- The files and the code they model:
--   Artifacts/Budget.antt    go/internal/artifacts/budget.go: `NewReadBudget`, `Reserve`,
--     `EnterDirectory` and `ReserveDirectoryEntry` on a record of limits and counters.
--   Tfrender/Quoted.antt     go/internal/tfrender/import_moves.go: `RenderHclQuotedString` and
--     `ParseHclQuotedString`.
--   Tfrender/Imports.antt    the same file: `RenderGeneratedImports` and `ParseGeneratedImports`.
--   Tfrender/Moves.antt      the same file: `DeriveImportMoves` and `RenderMovedBlocks`.
--   Canonjson/Values.antt    the values of go/internal/canonjson, and its two equalities as an argument.
--   Assessment/              go/internal/assessment/eval.go: Paths (paths and masks), Sets (membership
--     of sets), Diff and Changes (the walks of two values), Update (the paths of an update), Classify
--     (`classifyChange` and `ClassifyPlanWithOptions`); the other files there hold proofs. The drift
--     policy is the function that `ToleratesPlanPath` computes (Permitted joins the two), and a plan
--     is one that `ValidateAssessmentPlan` has accepted.
--   Metadata/DriftPolicy.antt  go/internal/metadata/driftpolicy.go: the indexes of `plan_tolerate`
--     entries and `ToleratesPlanPath`, which `classifyChange` calls for each path of an update. The
--     indexes are computed from the entries at a call, and not kept. Exact, Tolerance, FirstMatch and
--     Marks beside it hold proofs.
--   Metadata/PolicyPath.antt  the same file: `parsePolicyPath`, which reads the paths of the entries. Its
--     loop over the selectors of a segment has the length of the text as fuel. SafePath, Escapes,
--     ParsedPath and WrittenPath hold proofs.
--   Metadata/Stale.antt  the same file: `ProjectionOmits` and `StaleEntries`, over the entries of all
--     modes. Listed and Unused hold proofs.
--   Posixpath/Normalize.antt  go/internal/posixpath/paths.go: `Join`, `Normalize` and `Absolute`;
--     Relative is `posixRelative`. The other files there hold proofs.
--   Refedges/                go/internal/refedges/refedges.go: SetMaps (its maps of sets), Cycles
--     (`cyclePath`) and Resolve (`Resolve`, with what it reads of the deployment and the packs); the
--     other files there hold proofs. `visit` has one unit of fuel more than there are names.
--   Envgen/Closure.antt      go/internal/envgen/reference_topology.go: `CrossStateDependencyClosure`,
--     which takes the dependencies that `Resolve` returns. Each name joins its queue once, so the names
--     that are selected and the nodes together are fuel enough. Pending and Selected hold proofs.
--   Canonjson/Decimals.antt, Canonjson/Equality.antt  go/internal/canonjson/equality.go: exact decimal
--     values and the three equalities, with the operations on binary floats as an argument. The other
--     files there hold proofs: Alike and Equivalence on values, Scale, Normal, Denotes, Unique and Exact
--     on numbers.
--   Base.antt and Base/      shared notation and lemmas: lists, results, texts, sorting.
--   Tests.antt and Tests/    the theorems at concrete inputs.
--
-- Texts are lists of code points, which stands for valid UTF-8, and a byte offset into a text is the
-- rest of the text. `(value, error)` is a `Result`. A Go map is a list of pairs or of keys, looked up
-- at a key; a map by the marker of a path is looked up at the path. A loop over a text runs on
-- fuel: one more than the length of the text, which is enough, since each round takes a code point
-- at least.
--
-- Not modelled: the messages of failures, of which the code is kept, the mutex of `ReadBudget`, text
-- that is not valid UTF-8, files, processes and the network.
pub mod Base
pub mod Artifacts
pub mod Canonjson
pub mod Assessment
pub mod Metadata
pub mod Posixpath
pub mod Refedges
pub mod Envgen
pub mod Tfrender
pub mod Tests
