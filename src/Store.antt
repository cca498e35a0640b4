-- ===== src/Store.antt =====
-- identity/store: the tenant constraint of the data-access layer, and the reductions of authority.
pub mod OrgScope
pub mod Tables
pub mod Sweep
pub mod Reduction
pub mod Reconcile
