-- ===== src/Utils.antt =====
-- The containers of utils/ and list.c.
pub mod Vec
pub mod Copy
pub mod StrList
