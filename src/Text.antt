-- ===== src/Text.antt =====
-- What the program uses of the standard streams' text conversions, on lists of ASCII codes.
pub mod Digits
pub mod Scan
