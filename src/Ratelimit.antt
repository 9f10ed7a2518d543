-- ===== src/Ratelimit.antt =====
-- Package ratelimit (server/internal/ratelimit): sliding windows, progressive bans, and limiters.
pub mod Window
pub mod Address
pub mod Banbook
pub mod Limiter
