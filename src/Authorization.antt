-- ===== src/Authorization.antt =====
-- services/api/src/common/authorization/authorization.service.ts: system roles, the `where` filters
-- that scope each query to what a user may read, and the checks that the handlers make first.
pub mod Roles
pub mod Where
pub mod Access
pub use Roles.*
pub use Where.*
