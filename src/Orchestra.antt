-- ===== src/Orchestra.antt =====
-- app/multi_agent: the orchestrator, which runs the subtasks that a supervisor has made of a task.
-- `Models` has the data (models.py), `Dag` the scheduling loop and `Execute` the run around it
-- (orchestrator.py). `Decision` makes the subtasks from a canvas graph (decision_factory.py). The
-- other children prove what every schedule guarantees.
pub mod Models
pub mod Dag
pub mod Schedule
pub mod Safety
pub mod Rounds
pub mod Termination
pub mod Execute
pub mod Decision
pub mod Acyclic
pub mod Outcome
pub mod Canvas
pub mod Completes
mod Tests
mod CanvasTests
