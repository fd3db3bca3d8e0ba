-- ===== src/Dispatch.antt =====
-- internal/dispatch: moving accepted messages from the queue to providers.
pub mod Job
pub mod Claim
pub mod Completer
pub mod Circuit
pub mod Policy
pub mod Send
