-- ===== src/Encoding.antt =====
-- BalletMini/string_works.c: the code pages, UTF-8 and percent-encoding, and the comparisons of text.
-- A C string is the list of its bytes without the terminating zero; `char` is unsigned, as in the
-- ARM calling convention. A wide string is the list of its 16-bit units.
pub mod Codepage
pub mod Utf8
pub mod Web
pub mod Compare
pub mod Examples
