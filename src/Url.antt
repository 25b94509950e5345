-- ===== src/Url.antt =====
-- pkg/url/url.go: Accumulate URLs and what the protocol reads off them.
pub mod Text
pub mod Parts
pub mod Order
pub mod Pages
mod Tests
