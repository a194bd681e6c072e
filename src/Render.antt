-- ===== src/Render.antt =====
-- What the renderers share: renderers/shared/diagnostics.mjs, engineering-profiles.mjs, legend.mjs,
-- the checks of ids in cli.mjs, and the measuring of text in utils.mjs and text-fit.mjs.
pub mod Diagnostics
pub mod Recorded
pub mod Measure
pub mod Legend
pub mod Placed
pub mod Rows
pub mod Apart
pub mod Shown
pub mod Identity
pub mod Distinct
pub mod Profile
pub mod Consistent
pub mod Ownership
mod Examples
