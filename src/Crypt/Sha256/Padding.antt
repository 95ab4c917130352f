-- ===== src/Crypt/Sha256/Padding.antt =====
-- The padded message and its blocks, as FIPS 180-4 describes SHA-256, independently of the buffer
-- of back/crypt/crypt.cpp.
use lisa_lashes_demo.Base.{
  ℕ, zero, suc, ◌+◌, ◌-◌, ◌*◌, ◌/◌, ◌%◌, ◌^◌, ◌≡◌, List, [], ◌∷◌, ◌++◌, arith, length, take, drop,
  replicate, length-append, length-replicate,
}
use lisa_lashes_demo.Crypt.Sha256.Words.{Words8, compress, initial_state}

-- The bit length in eight bytes, most significant first.
abbrev pub length_bytes : ℕ → List ℕ
length_bytes n =
    n / 2 ^ 56 % 256
    ∷ n / 2 ^ 48 % 256
    ∷ n / 2 ^ 40 % 256
    ∷ n / 2 ^ 32 % 256
    ∷ n / 2 ^ 24 % 256
    ∷ n / 2 ^ 16 % 256
    ∷ n / 2 ^ 8 % 256
    ∷ n % 256
    ∷ []

-- Zeros up to 8 bytes before the end of a block.
abbrev pub zero_count : ℕ → ℕ
zero_count n = (119 - n % 64) % 64

-- What is appended to a message of n bytes.
abbrev pub padding : ℕ → List ℕ
padding n = 0x80 ∷ (replicate (zero_count n) 0 ++ length_bytes (n * 8 % 2 ^ 64))

-- Fold the compression function over n blocks of 64 bytes.
unfoldable pub hash_blocks : ℕ → Words8 → List ℕ → Words8
hash_blocks zero h l = h
hash_blocks (suc n) h l = hash_blocks n (compress h (take 64 l)) (drop 64 l)

abbrev pub block_count : ℕ → ℕ
block_count n = (n + 9 + zero_count n) / 64

unfoldable pub hash_message : List ℕ → Words8
hash_message m = hash_blocks (block_count (length m)) initial_state (m ++ padding (length m))

pub length-padding : (n : ℕ) → length (padding n) ≡ 9 + zero_count n
length-padding n = omega (
  arith,
  length-append {0} (replicate (zero_count n) 0) (length_bytes (n * 8 % 2 ^ 64)),
  length-replicate {0} {A = ℕ} (zero_count n) 0,
)

-- The padded message is a whole number of blocks.
pub padded_blocks : (n : ℕ) → n + length (padding n) ≡ 64 * block_count n
padded_blocks n = omega (arith, length-padding n)
