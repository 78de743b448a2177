-- ===== src/Bytes.antt =====
-- Go's byte slices and strings, as lists of numbers, and what the program uses of the packages
-- `bytes` and `encoding/binary`: big-endian integers and the reader over a byte slice.
pub mod BigEndian
pub mod Reader
