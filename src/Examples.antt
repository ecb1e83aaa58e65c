-- ===== src/Examples.antt =====
-- Tests of the definitions, and the theorems at concrete inputs.
mod EbicsEngine
mod PaymentSchemes
mod OrderQueue
mod PaymentRules
mod OrderSubmission
mod CronExpressions
mod WebhookDeliveries
mod StatusReports
mod DownloadRuns
