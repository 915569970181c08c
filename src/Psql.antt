-- ===== src/Psql.antt =====
-- server_app/psql_manager (PsqlManager) and server_app/authentification_service
-- (AuthentificationService), over libpq. The children prove what a query says of its credentials
-- (`Query`), what the lookup answers (`Lookup`), what a registration leaves (`Register`), and what
-- becomes of the connection (`Life`).
pub mod Defs
pub mod Query
pub mod Lookup
pub mod Life
pub mod Register
pub mod Table
pub mod Store
mod Tests
