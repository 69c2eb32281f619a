-- ===== src/Output.antt =====
-- The output budget of an attempt (runtime/output_budget.go).
pub mod Budget
pub mod Bounds
