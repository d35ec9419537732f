-- ===== src/Vro.antt =====
-- The registration office of src/ovpoc/vro.py: its state, the requests for a token on both routes,
-- the answers about releases, and its storage.
pub mod State
pub mod Office
pub mod Document
pub mod Query
pub mod Storage
pub mod Reordering
pub mod Supervision
pub mod Steps
pub mod Register
pub mod Documents
pub mod OneToken
pub mod Boundary
pub mod Answers
pub mod Remembering
pub mod Requests
pub mod Issuing
pub mod BothRoutes
