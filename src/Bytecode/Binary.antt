-- ===== src/Bytecode/Binary.antt =====
-- qy/backend/vm/bytecode.py: serialize_bytecode and deserialize_bytecode. Bytes are numbers. UTF-8 and
-- pickle are parameters: their decoders raise, which is `none`. Their encoders do not: names without
-- lone surrogates and objects that can be pickled.
pub mod Words
pub mod Reader
pub mod Write
pub mod Read
pub mod Roundtrip
