-- ===== src/Linear.antt =====
-- The delivery of results to Linear (src/researchctl/services/linear_delivery.py).
pub mod Envelope
pub mod Remote
pub mod Marker
pub mod Comments
pub mod Accepted
pub mod Reply
pub mod Worker
mod Samples
