-- ===== src/Middleware.antt =====
-- The package middleware: the two interceptors of a gRPC server.
pub mod Authentication
pub mod Monitoring
