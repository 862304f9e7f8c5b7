-- ===== src/Store.antt =====
-- The database that the API keeps (apps/api/prisma/schema.prisma), as the rows of its tables, and
-- the queries that the handlers make. Rows stand in the order of their creation. An identifier, a
-- UUID or a SHA-256 value is the number that it spells; a time is in milliseconds since 1970. Of an
-- audit event the metadata is left out. Row locks need no model here: a transaction runs alone.
pub mod Rows
pub mod Queries
