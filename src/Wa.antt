-- ===== src/Wa.antt =====
-- internal/wa: the boundary between the platform and the HyperMeow library. `Classify` gives the
-- verdict on a library event (classify.go), `Session` the interface to one session (session.go),
-- `Adapter` what hypermeow.go does around the library.
pub mod Classify
pub mod Session
pub mod Adapter
