-- ===== src/Crypt/Sha256.antt =====
-- back/crypt/crypt.h and crypt.cpp: the class SHA256 and the function sha256. Bytes and words are
-- numbers, with the wrap-around of `uint32_t` and `uint64_t` written out. The array `m_data`,
-- which the constructor leaves unset, is an argument of the model's constructor.
pub mod Words
pub mod Padding
pub mod Feed
pub mod Digest
pub mod Tests
use mathlib.Core.List.{foldl}
use lisa_lashes_demo.Base.{
  ℕ, zero, suc, ◌+◌, ◌-◌, ◌*◌, ◌/◌, ◌%◌, ◌^◌, List, [], ◌∷◌, ◌++◌, ltb, ◌==◌, if◌then◌else◌, set,
  drop, replicate,
}
use Words.{Words8, compress, initial_state, state_words}

abbrev u64_mod : ℕ
u64_mod = 2 ^ 64

pub record Sha256 : Type 0 where
  pub data_bytes : List ℕ
  pub blocklen : ℕ
  pub bitlen : ℕ
  pub state : Words8

-- SHA256::SHA256(); `junk` is what the 64 bytes of `m_data` happen to hold.
pub init : List ℕ → Sha256
init junk = record { data_bytes = junk; blocklen = 0; bitlen = 0; state = initial_state }

pub transform : Sha256 → Sha256
transform s = record s { state = compress s.state s.data_bytes }

-- One round of the loop in `update`.
pub update_byte : Sha256 → ℕ → Sha256
unfolding transform
update_byte s byte =
    let data' = set s.data_bytes s.blocklen byte in
    let written = record s { data_bytes = data'; blocklen = s.blocklen + 1 } in
    if s.blocklen + 1 == 64
    then record (transform written) { bitlen = (s.bitlen + 512) % u64_mod; blocklen = 0 }
    else written

pub update : Sha256 → List ℕ → Sha256
unfolding update_byte
update = foldl update_byte

-- `while (i < end) m_data[i++] = 0x00;`, `left` is end - i.
zero_fill : ℕ → ℕ → List ℕ → List ℕ
zero_fill zero i d = d
zero_fill (suc left) i d = zero_fill left (i + 1) (set d i 0)

-- The eight writes of the bit length, last byte first.
write_length : ℕ → List ℕ → List ℕ
write_length bits d =
    let d₁ = set d 63 (bits % 256) in
    let d₂ = set d₁ 62 (bits / 2 ^ 8 % 256) in
    let d₃ = set d₂ 61 (bits / 2 ^ 16 % 256) in
    let d₄ = set d₃ 60 (bits / 2 ^ 24 % 256) in
    let d₅ = set d₄ 59 (bits / 2 ^ 32 % 256) in
    let d₆ = set d₅ 58 (bits / 2 ^ 40 % 256) in
    let d₇ = set d₆ 57 (bits / 2 ^ 48 % 256) in set d₇ 56 (bits / 2 ^ 56 % 256)

-- The bit 1 and the zeros behind the message, and the block that this may complete.
pad_block : Sha256 → Sha256
unfolding zero_fill transform
pad_block s =
    let end = if ltb s.blocklen 56 then 56 else 64 in
    let marked = set s.data_bytes s.blocklen 0x80 in
    let filled = record s {
      data_bytes = zero_fill (end - (s.blocklen + 1)) (s.blocklen + 1) marked;
    } in
    if ltb s.blocklen 56
    then filled
    else record (transform filled) { data_bytes = replicate 56 0 ++ drop 56 filled.data_bytes }

pub pad : Sha256 → Sha256
unfolding pad_block write_length transform
pad s =
    let block = pad_block s in
    let bits = (s.bitlen + s.blocklen * 8) % u64_mod in
    transform (record block { bitlen = bits; data_bytes = write_length bits block.data_bytes })

-- `revert`: each word of the state, most significant byte first.
word_bytes : ℕ → List ℕ
word_bytes w = w / 2 ^ 24 % 256 ∷ w / 2 ^ 16 % 256 ∷ w / 2 ^ 8 % 256 ∷ w % 256 ∷ []

pub revert_words : List ℕ → List ℕ
unfolding word_bytes
revert_words [] = []
revert_words (w ∷ ws) = word_bytes w ++ revert_words ws

pub revert : Sha256 → List ℕ
unfolding revert_words
revert s = revert_words (state_words s.state)

pub digest : Sha256 → List ℕ
unfolding pad revert
digest s = revert (pad s)

-- `setw(2)`, `setfill('0')` and `hex`: two lower-case digits for each byte.
hex_digit : ℕ → ℕ
hex_digit n = if ltb n 10 then b'0' + n else b'a' + (n - 10)

pub to_string : List ℕ → List ℕ
unfolding hex_digit
to_string [] = []
to_string (b ∷ bs) = hex_digit (b / 16) ∷ hex_digit (b % 16) ∷ to_string bs

unfoldable pub sha256 : List ℕ → List ℕ → List ℕ
unfolding update digest to_string init
sha256 junk input = to_string (digest (update (init junk) input))
