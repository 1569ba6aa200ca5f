-- ===== src/Memory.antt =====
-- app/memory: the long-term memory. `Store` has the data and the repository in memory (models.py,
-- memory_repository.py), `Terms` the terms of a text and `Service` the service (service.py). The
-- other children prove what an owner can see and change.
pub mod Store
pub mod Terms
pub mod Service
pub mod Isolation
pub mod Owners
pub mod Context
mod Tests
