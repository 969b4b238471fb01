-- ===== src/Registry/Statements.antt =====
-- The SQL statements of pkg/registry/mysqlredisregistry.go, as functions on the tables. The oldest
-- row is the first of a SELECT (the order of the primary key). A statement that violates a
-- constraint of the schema, or a column's type, is refused and changes nothing.
mod Tables
mod Inserts
mod Queries
mod Updates
mod Deletes
unfoldable pub use Tables.*
unfoldable pub use Inserts.*
unfoldable pub use Queries.*
unfoldable pub use Updates.*
unfoldable pub use Deletes.*
