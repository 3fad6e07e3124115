-- ===== src/Tests.antt =====
-- Runs of the model on concrete inputs: each theorem's witness, and tests of the definitions.
mod QueueRuns
mod AttachmentRuns
mod PageRuns
mod ReplyRuns
mod VoiceRuns
mod WakeRuns
mod CommandRuns
mod ScheduleRuns
mod LedgerRuns
mod EgressRuns
mod RecordRuns
mod Redis
mod StoreRuns
mod GuardRuns
mod ClaimRuns
mod KeyValues
mod RunnerRuns
mod PollRuns
mod ProgressRuns
mod CoordinatorRuns
mod HistoryRuns
