-- ===== src/Acl.antt =====
-- The access control list of a space (commonspace/object/acl/list).
pub mod Permissions
pub mod Model
pub mod State
pub mod Validator
pub mod Apply
pub mod Policy
pub mod History
pub mod List
pub mod Builder
mod Examples
