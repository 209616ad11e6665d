-- ===== src/Corpus.antt =====
-- go/internal/corpus/autocap.go: what a sweep log says of the corpora, and what is done about it.
pub mod Sweep
pub mod Sections
pub mod Caps
pub mod Capped
pub mod Tune
pub mod Tuned
mod Examples
