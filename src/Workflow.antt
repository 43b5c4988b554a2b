-- ===== src/Workflow.antt =====
-- workflows/: the engine that runs workflow documents.
pub mod Model
pub mod State
pub mod Definition
pub mod Inputs
pub mod Engine
pub mod Run
pub mod Steps
pub mod Expressions
pub mod Validation
pub mod Demo
mod Examples
