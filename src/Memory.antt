-- ===== src/Memory.antt =====
-- Raw memory as the C++ code uses it: `memcpy` into and out of arrays of `char`, `std::strlen`,
-- and the object representation of the trivially copyable types that cross the network. Bytes are
-- numbers. `none` is an access outside the array.
mod Defs
mod Laws
unfoldable pub use Defs.{c_string, copy_into, read_from, to_le, of_le}
pub use Defs.{Layout}
pub use Laws.*
