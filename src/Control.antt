-- ===== src/Control.antt =====
-- services/manager-control/app.py, the HTTP service over the store.
pub mod Access
pub mod Cancellation
pub mod Replies
pub mod Creation
pub mod Submission
pub mod Updates
