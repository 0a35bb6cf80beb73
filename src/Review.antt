-- ===== src/Review.antt =====
-- Reviews: src/modules/review/review.service.ts, one child for each group of methods.
mod Model
mod Lookup
mod Templates
mod Cycles
mod Activation
mod Submission
mod Deadlines
mod Feedback
mod Nominations
mod Calibration
mod Closing
pub mod Service
mod Writes
mod Frame
mod Peers
mod Lifecycle
mod Pairs
mod Assigned
mod Unique
mod Records
mod Sessions
mod Scores
mod Tests
