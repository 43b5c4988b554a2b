-- ===== src/Workflow/Expressions.antt =====
-- workflows/expressions.py: the evaluator of templates.
pub mod Filters
pub mod Operators
pub mod Paths
pub mod Simple
pub mod Template
mod Sizes
pub mod Runs
pub mod Total
pub mod Reference
pub mod Variables
pub mod Evaluator
mod Examples
