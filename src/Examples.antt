-- ===== src/Examples.antt =====
-- Runs of the code's models on small inputs, and the theorems at such inputs.
mod SetsRuns
mod RingRuns
mod StoreRuns
mod ConsulRuns
mod SampleRuns
mod IndexRuns
mod RemoteRuns
mod HistoryRuns
mod LoopRuns
mod DistributorRuns
mod PipelineRuns
