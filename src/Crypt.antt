-- ===== src/Crypt.antt =====
-- back/crypt: the SHA-256 of session tokens.
pub mod Sha256
