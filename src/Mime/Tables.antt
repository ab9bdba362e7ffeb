-- ===== src/Mime/Tables.antt =====
-- The sorting tables of mime_io.c.
pub mod Low
pub mod High
pub mod Sound
