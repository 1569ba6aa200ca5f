-- ===== src/Workflow.antt =====
-- app/workflows/engine: the graphs of the workflow builder. `Graph` has the definition (models.py),
-- `Order` Kahn's algorithm and `Conditions` the conditions and templates (validation.py). The other
-- children prove what these return.
pub mod Graph
pub mod Order
pub mod Descendants
mod Degrees
mod Kahn
mod Sorted
pub mod Conditions
pub mod Validation
pub mod Engine
pub mod Trace
pub mod Visits
pub mod Follows
pub mod Validated
pub mod Sources
pub mod Chosen
pub mod Runs
pub mod Precedence
pub mod Printed
pub mod Placeholders
pub mod Rendered
mod Tests
mod RunTests
