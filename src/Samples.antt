-- ===== src/Samples.antt =====
-- Concrete runs of the model, and the theorems applied at concrete inputs.
mod WireRuns
mod ReassemblyRuns
mod SchedulerRuns
mod StreamRuns
mod FetcherRuns
mod PageRuns
mod BudgetRuns
mod RepairRuns
mod SeqRuns
mod SessionRuns
mod GlueRuns
