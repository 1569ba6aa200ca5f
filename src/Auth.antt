-- ===== src/Auth.antt =====
-- app/auth: the API keys. `Records` has the data and the repository in memory (models.py,
-- memory_repository.py), `Service` the service (service.py) and the routes that revoke keys.
pub mod Records
pub mod Service
pub mod Steps
pub mod Touches
pub mod Filed
pub mod Own
mod Tests
