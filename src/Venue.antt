-- ===== src/Venue.antt =====
-- The venue's service: src/venue.
pub mod State
pub mod Status
pub mod Task
pub mod Outcome
pub mod Lifecycle
pub mod Redaction
pub mod Ending
pub mod Voiding
pub mod Standing
pub mod Commit
pub mod Step
pub mod Prepare
pub mod Moves
pub mod Acceptance
pub mod Negotiation
pub mod Specificity
pub mod Intake
pub mod Inbox
mod Tests
mod Scenario
mod NegotiationTests
mod IntakeTests
mod InboxTests
