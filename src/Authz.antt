-- ===== src/Authz.antt =====
-- xhttp/authz/authz.go: authorization by a tree of path segments.
pub mod Tree
pub mod Provider
pub mod Examples
