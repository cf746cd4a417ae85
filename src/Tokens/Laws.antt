-- ===== src/Tokens/Laws.antt =====
-- Laws of the token methods.
pub mod Submitted
pub mod Represented
