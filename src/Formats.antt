-- ===== src/Formats.antt =====
-- backend/formats: the file formats that plans are imported from and exported to.
pub mod Pla
