-- ===== src/Tests.antt =====
-- The theorems at concrete inputs.
mod Data
mod OutboxExamples
mod MessageExamples
mod ToolExamples
mod PollExamples
mod ProcessExamples
mod SearchExamples
mod DeadLetterExamples
mod ConfigExamples
