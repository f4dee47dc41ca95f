-- ===== src/Store.antt =====
-- The runtime store (src/researchctl/runtime/store.py): the SQLite tables, the checks of
-- arguments, transactions, and one module for each group of methods.
pub mod Schema
pub mod Checks
pub mod Transaction
pub mod Listings
pub mod Leaves
pub mod Operations
pub mod Sessions
pub mod Notifications
pub mod Replies
pub mod Delivery
pub mod Attention
pub mod Status
pub mod Ingress
pub mod History
mod Samples
