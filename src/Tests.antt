-- ===== src/Tests.antt =====
-- The theorems of the library at concrete inputs.
mod Toy
mod Codec
mod Box
mod Office
mod Blind
mod Journey
mod Audit
mod Storage
mod Documents
mod Generated
