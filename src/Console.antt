-- ===== src/Console.antt =====
-- services/console-auth: the sign-in of the console.
pub mod Limiter
pub mod Auth
