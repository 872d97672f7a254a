-- ===== src/Libc.antt =====
-- The C library of the kernel, libpolyhedron: memory, strings, characters and numbers.
pub mod Ctype
pub mod Memory
pub mod Numbers
pub mod Strings
pub mod Time
