-- ===== src/HoString.antt =====
-- libc/ho_string: the author's versions of the functions of <string.h>. The demonstrations in each
-- file's `main` are not modelled.
pub mod Scan
pub mod Compare
mod Examples
pub mod Span
pub mod Copy
