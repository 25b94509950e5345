-- ===== src/Sorted.antt =====
-- internal/sortutil/sort.go: binary search, insertion and removal on slices.
pub mod Search
pub mod Contract
pub mod Boundary
pub mod Keys
pub mod Sets
pub mod Removal
mod Tests
