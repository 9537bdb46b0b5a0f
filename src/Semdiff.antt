-- ===== src/Semdiff.antt =====
-- internal/semdiff/semdiff.go
pub mod Changes
pub mod Float
pub mod Analyze
pub mod Verdict
pub mod Returns
pub mod Examples
pub mod Bounds
pub mod Format
pub mod Embedders
pub mod Answers
