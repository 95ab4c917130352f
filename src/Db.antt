-- ===== src/Db.antt =====
-- back/db: the connection pool, and a service's conversation with the database.
pub mod Pool
pub mod Exec
pub mod Casts
