-- ===== src/Routes.antt =====
-- The handlers of back/routes, by the service that each calls.
pub mod Auth
pub mod Bookings
pub mod Cart
pub mod Products
pub mod Schedule
pub mod Salon
