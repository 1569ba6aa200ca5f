-- ===== src/Agent.antt =====
-- app/agents: the bounded model-tool loop. `Models` has the data (models.py), `Events` the event log
-- and the end of a run, `Checks` the tests of one step, `Tools` the execution of a tool call, and
-- `Loop` the run itself (all runtime.py). The other children prove what a run guarantees.
pub mod Models
pub mod Events
pub mod Checks
pub mod Tools
pub mod Loop
pub mod Log
pub mod Report
pub mod Outcomes
pub mod Output
pub mod Steps
