-- ===== src/Gpf.antt =====
-- The .gpf container: document/gpf/ of the repository, one module for each layer of a file.
pub mod Format
pub mod Fields
pub mod Preheader
pub mod Chunks
pub mod Footer
pub mod Header
pub mod Crypto
pub mod Container
