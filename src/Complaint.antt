-- ===== src/Complaint.antt =====
-- Complaints: src/modules/complaint/complaint.service.ts, one child for each group of methods.
-- The mails that the service sends are not modelled.
mod Model
mod Filing
mod Handling
mod Listing
mod Service
pub mod Transitions
mod Closing
mod Lateness
mod Visibility
mod Listed
mod Isolation
mod Tests
