-- ===== src/Auth.antt =====
-- infrastructure/auth/jwt_auth.py: passwords, tokens and the dependencies that guard a route.
mod Jwt
pub mod Guarded
mod Tests
unfoldable pub use Jwt.*
