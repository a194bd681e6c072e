-- ===== src/Lib.antt =====
-- Archify, in agentimg/archify: an agent skill that draws typed diagrams, and keeps itself
-- informed of new releases. This library models the JavaScript program.
--
-- The parts and their files:
--   * Json models the values that `JSON.parse` gives and what the program asks of them: exact
--     keys, coercion to text. Json.Size counts the bytes that `JSON.stringify` writes.
--   * Update.Semver and Update.Contract model agentimg/archify/scripts/update-contract.mjs:
--     `parseSemver` with its pattern as a scanner, `compareSemver`, and the validators of the
--     local release and of the manifest. A thrown `UpdateContractError` is `none`.
--   * Update.State models the cached state of agentimg/archify/scripts/check-update.mjs:
--     `emptyState`, `stateAfterAcknowledgement`, `encodeRecoverableState`, `normalizeState`.
--   * Update.Check models what the two entry points decide (`resultForCandidate`,
--     `stateAfterFailedCheck`, `freshStateResult`), and Update.Check.Run the entry points
--     themselves, `checkForUpdate` and `acknowledgeUpdate`, with `commitOperation`. The answers
--     that a run gets from files, network and clock are the fields of a record; `none` is an
--     exception, and a result comes with the state that the run has stored.
--   * Delta models the comparison of two snapshots in
--     agentimg/archify/delta/architecture-delta.mjs: canonical texts (Delta.Canonical), the maps
--     from stable ids to items (Delta.Index), the classification of what changed (Delta.Entities)
--     and `compareArchitecture` (Delta.Compare). A thrown `ArchitectureDeltaError` is its code.
--   * Geometry models parts of agentimg/archify/renderers/shared/geometry.mjs (rectangles, sides,
--     axis-parallel overlaps, segments that meet a rectangle, the merging of border runs,
--     normalized routes with their rhythm and budgets, shared corridors), and Geometry.Grid
--     agentimg/archify/renderers/architecture/grid.mjs.
--   * Update.Operations models how the runs of agentimg/archify/scripts/check-update.mjs take turns
--     in the cache directory: a step relation on the directories of the generations and on the
--     processes, each step a call of the file system (`reserveOperation`, `transitionOperation`,
--     `cancelOperation`, `fenceLowerOperations`, the rename of `promoteOperationClaim`), the loop
--     of `reserveOperation` (Update.Operations.Reserve), the names of the directories
--     (Update.Operations.Names) and what a run makes of those that it finds: `listOperations`,
--     `readState`, `inspectActiveClaim` (Update.Operations.Turns), `promoteOperationClaim` and
--     `acquireOperation` (Update.Operations.Promote).
--   * Render models what the renderers share, in agentimg/archify/renderers/shared: the recorded
--     diagnostics (Render.Diagnostics for diagnostics.mjs), the engineering profile
--     (Render.Profile for engineering-profiles.mjs), the measuring and fitting of text
--     (Render.Measure for `textUnits` of utils.mjs and for text-fit.mjs), the ids and guided views
--     (Render.Identity for cli.mjs), and the legend (Render.Legend and Render.Placed for
--     legend.mjs), which measures its labels by Render.Measure and tests its collisions by Geometry.
--   * Workflow models parts of agentimg/archify/renderers/workflow/workflow-compiler.mjs: the
--     order of `canonicalReadableWorkflow` (Workflow.Canonical), the semantic contract,
--     `semanticContractDiagnostics` (Workflow.Contract, and Workflow.Search with `reachable`), and
--     of `createReadableLayout` the constraints on the columns (Workflow.Columns) and their solver
--     (Workflow.Solve). Workflow.Pins models
--     agentimg/archify/renderers/workflow/workflow-migration-geometry.mjs, and Workflow.Answer with
--     Workflow.Migrate agentimg/archify/migrations/workflow-v2.mjs, where the compiler and the
--     validator of the schema are an interface that may throw, and `none` is an error that is thrown
--     on.
--   * Output models agentimg/archify/renderers/shared/output-path.mjs: `canonicalize` with the links
--     that it follows (Output.Paths), `pathsAlias` and `pathIsInside` (Output.Aliases), and
--     `resolveOutputPath` (Output.Resolve). The functions of Node's `path` and what the file system
--     tells are the fields of a record, and an error is its code. Output.Sources models the check
--     of the sources of the components in `verifyRepositoryEvidence` of
--     agentimg/archify/renderers/shared/repository-evidence.mjs over what Git answers.
-- The contract validates what the state keeps and the check announces; the check writes the state
-- that the next check and the acknowledgement read.
--
-- Coordinates are natural numbers: of 0.0001 px in the geometry, where that is the tolerance, and
-- exact, where the program adds doubles. Texts are lists of UTF-16 code units, instants are
-- milliseconds, random numbers count units of 2 ^ -53, and the product with the multiplier is
-- exact, where the program rounds a double. The loop of `acknowledgeUpdate` runs over the list of
-- its rounds; a deadline of 1200 milliseconds and a clock that advances bound their number.
-- The loop of `reserveOperation` has fuel for all 10 ^ 20 generations, and that of
-- `promoteOperationClaim` has its 8 rounds, each of which may end with an error of any call. The lengths of a legend count
-- units of 0.0001 px and its font sizes tenths of a pixel. The search for a path has a round for
-- each node and one for its start, and the layout three iterations, of which it uses two. The
-- migration takes the arithmetic of doubles as a parameter; a parsed document is its own clone. At most
-- 64 links of an output path are followed, and the directories above it are fewer than its code units.
--
-- Not modelled: the calls that retire a claim, of which the relation has the rename alone; the
-- file of the owner that `reserveOperation` and `prepareOperationClaim` write; the
-- guards against a cache directory that is replaced; the network; `Date`, which is a parameter with
-- the law that an instant is read back from its text; the drawing of diagrams; of the
-- workflow compiler the shifts of the layout as a whole, lanes, groups, and the routing of the edges
-- with its costs; the texts of the errors of the contract, the delta, the legend and the
-- output; the probe for directories that ignore the case of names; the address, the revision and the root
-- of a repository with evidence;
-- `toLowerCase`, which is a parameter.
pub mod Base
pub mod Json
pub mod Update
pub mod Delta
pub mod Geometry
pub mod Render
pub mod Workflow
pub mod Output
