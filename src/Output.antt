-- ===== src/Output.antt =====
-- renderers/shared/output-path.mjs: where a renderer may write. The functions of Node's `path` and the
-- answers of the file system are parameters; an error is its code, without its texts.
mod Paths
mod Aliases
mod Resolve
mod Safe
mod Sources
mod Evidence
mod Examples
