-- ===== src/Auth.antt =====
-- src/modules/auth: the refresh tokens and the one-time codes. A jti, a device and an address are
-- numbers, since they are only compared; time is in milliseconds.
pub mod Tokens
pub mod Otp
pub mod Access
mod Tests
