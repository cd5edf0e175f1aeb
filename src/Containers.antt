-- ===== src/Containers.antt =====
-- The containers of the C++ library that the source uses: std::string, std::set of pointers and
-- std::map from strings. A std::string is the list of its bytes.
pub mod Text
pub mod AddressSet
pub mod Map
