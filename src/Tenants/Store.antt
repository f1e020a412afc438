-- ===== src/Tenants/Store.antt =====
-- internal/api/repositories/tenant.go and role.go: the statements on the tables. Rows are read in the order in
-- which they stand, not in the order by name or by time of the statements. The foreign keys and the unique keys are those of the schema
-- (deployments/docker/init-scripts/17-rbac-multi-tenancy-schema.sql).
mod Statements
mod Tenants
mod Members
mod Creation
mod Roles
unfoldable pub use Statements.*
unfoldable pub use Tenants.*
unfoldable pub use Members.*
unfoldable pub use Creation.*
unfoldable pub use Roles.*
