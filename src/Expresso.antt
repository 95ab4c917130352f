-- ===== src/Expresso.antt =====
-- The framework in src/ and include/expresso/: responses, routers, the server's parsing of a
-- request, and the middlewares that the program registers.
pub mod Libraries
pub mod Response
pub mod Router
pub mod Server
pub mod Middlewares
