-- ===== src/Recognizer.antt =====
-- c/pic-recognizer: which of four answer boxes on a scanned form is marked.
pub mod Image
pub mod Runs
pub mod Lines
pub mod Areas
pub mod Marks
pub mod Main
pub mod Results
mod Examples
mod FormExamples
