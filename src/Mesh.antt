-- ===== src/Mesh.antt =====
-- The mesh engine, backend/internal/engine/mesh_engine.go: the routes that an agent takes to the
-- others, by the costs of the links that were probed.
pub mod Heap
pub mod Graph
pub mod Search
pub mod Table
pub mod Fingerprint
pub mod Compute
