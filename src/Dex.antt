-- ===== src/Dex.antt =====
-- The DEX file format, src/dex: the reader, the instruction decoder, and
-- the encoded values and class data of a file.
pub mod Error
pub mod Cursor
pub mod Mutf8
pub mod Insn
pub mod Values
pub mod ClassData
pub mod Ensures
