-- ===== src/Options.antt =====
-- include/config.hpp: PaxosOptions and MemberList. The threshold is a `double` in the source; here
-- it is the fraction threshold_num / threshold_den, so that `ceil` of the product is exact.
mod Defs
mod Quorum
mod Tests
unfoldable pub use Defs.*
pub use Quorum.*
