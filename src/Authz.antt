-- ===== src/Authz.antt =====
-- backend/authorization/policies: the decision of an authorization request.
pub mod Reasons
pub mod Context
pub mod Registry
pub mod Policies
pub mod Authorize
