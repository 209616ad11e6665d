-- ===== src/Workspace.antt =====
-- internal/workspace: the configuration file of a workspace, read by `Load` and rewritten by `Set`.
-- A file is the list of its bytes, or `none` where it cannot be read.
mod Conf
mod Edit
mod Written
mod Rewrite
mod Image
mod Examples
pub use Conf.*
pub use Edit.*
