-- ===== src/Bytecode/Binary/Words.antt =====
-- Little-endian words: struct.pack and struct.unpack with "<I" and "<H". Packing a number that does
-- not fit raises struct.error, which is `none`.
use qy.Prelude.{
  ℕ, ◌+◌, ◌*◌, ◌/◌, ◌%◌, ◌≡◌, Option, some, none, List, [], ◌∷◌, ltb, if◌then◌else◌, arith,
}

abbrev pub uint16_limit : ℕ
uint16_limit = 65536

abbrev pub uint32_limit : ℕ
uint32_limit = 4294967296

abbrev pub pack_uint16 : ℕ → Option (List ℕ)
pack_uint16 n = if ltb n uint16_limit then some (n % 256 ∷ n / 256 ∷ []) else none

abbrev pub uint32_bytes : ℕ → List ℕ
uint32_bytes n = n % 256 ∷ n / 256 % 256 ∷ n / 65536 % 256 ∷ n / 16777216 ∷ []

abbrev pub pack_uint32 : ℕ → Option (List ℕ)
pack_uint32 n = if ltb n uint32_limit then some (uint32_bytes n) else none

abbrev pub unpack_uint16 : List ℕ → ℕ
unpack_uint16 (a ∷ b ∷ _) = a + 256 * b
unpack_uint16 _ = 0

abbrev pub unpack_uint32 : List ℕ → ℕ
unpack_uint32 (a ∷ b ∷ c ∷ d ∷ _) = a + 256 * b + 65536 * c + 16777216 * d
unpack_uint32 _ = 0

pub unpack-uint32_bytes : (n : ℕ) → unpack_uint32 (uint32_bytes n) ≡ n
unpack-uint32_bytes n = omega arith

pub pack_uint32-inv : (n : ℕ) (bs : List ℕ) → pack_uint32 n ≡ some bs → uint32_bytes n ≡ bs
pack_uint32-inv n bs h = ground arith
