-- ===== src/Crypt/Sha256/Words.antt =====
-- The 32-bit functions of back/crypt/crypt.cpp and the loop over one block.
use Prim.Native.Nat.{bit_and, bit_or, bit_xor}
use lisa_lashes_demo.Base.{ℕ, zero, suc, ◌+◌, ◌-◌, ◌*◌, ◌/◌, ◌%◌, ◌^◌, List, [], ◌∷◌, ◌++◌, get_or}

abbrev pub u32_mod : ℕ
u32_mod = 2 ^ 32

-- The array `m_state`, and the working copy `state`: A, B, C, D, E, F, G, H.
pub record Words8 : Type 0 where
  pub a : ℕ
  pub b : ℕ
  pub c : ℕ
  pub d : ℕ
  pub e : ℕ
  pub f : ℕ
  pub g : ℕ
  pub h : ℕ

abbrev pub state_words : Words8 → List ℕ
state_words s = s.a ∷ s.b ∷ s.c ∷ s.d ∷ s.e ∷ s.f ∷ s.g ∷ s.h ∷ []

abbrev pub initial_state : Words8
initial_state = record {
  a = 0x6a09e667;
  b = 0xbb67ae85;
  c = 0x3c6ef372;
  d = 0xa54ff53a;
  e = 0x510e527f;
  f = 0x9b05688c;
  g = 0x1f83d9ab;
  h = 0x5be0cd19;
}

abbrev round_constants : List ℕ
round_constants =
    0x428a2f98 ∷ 0x71374491 ∷ 0xb5c0fbcf ∷ 0xe9b5dba5 ∷ 0x3956c25b ∷ 0x59f111f1 ∷ 0x923f82a4
    ∷ 0xab1c5ed5 ∷ 0xd807aa98 ∷ 0x12835b01 ∷ 0x243185be ∷ 0x550c7dc3 ∷ 0x72be5d74 ∷ 0x80deb1fe
    ∷ 0x9bdc06a7 ∷ 0xc19bf174 ∷ 0xe49b69c1 ∷ 0xefbe4786 ∷ 0x0fc19dc6 ∷ 0x240ca1cc ∷ 0x2de92c6f
    ∷ 0x4a7484aa ∷ 0x5cb0a9dc ∷ 0x76f988da ∷ 0x983e5152 ∷ 0xa831c66d ∷ 0xb00327c8 ∷ 0xbf597fc7
    ∷ 0xc6e00bf3 ∷ 0xd5a79147 ∷ 0x06ca6351 ∷ 0x14292967 ∷ 0x27b70a85 ∷ 0x2e1b2138 ∷ 0x4d2c6dfc
    ∷ 0x53380d13 ∷ 0x650a7354 ∷ 0x766a0abb ∷ 0x81c2c92e ∷ 0x92722c85 ∷ 0xa2bfe8a1 ∷ 0xa81a664b
    ∷ 0xc24b8b70 ∷ 0xc76c51a3 ∷ 0xd192e819 ∷ 0xd6990624 ∷ 0xf40e3585 ∷ 0x106aa070 ∷ 0x19a4c116
    ∷ 0x1e376c08 ∷ 0x2748774c ∷ 0x34b0bcb5 ∷ 0x391c0cb3 ∷ 0x4ed8aa4a ∷ 0x5b9cca4f ∷ 0x682e6ff3
    ∷ 0x748f82ee ∷ 0x78a5636f ∷ 0x84c87814 ∷ 0x8cc70208 ∷ 0x90befffa ∷ 0xa4506ceb ∷ 0xbef9a3f7
    ∷ 0xc67178f2 ∷ []

rotr : ℕ → ℕ → ℕ
rotr x n = bit_or (x / 2 ^ n) (x * 2 ^ (32 - n) % u32_mod)

-- `~e` is the complement in 32 bits.
choose : ℕ → ℕ → ℕ → ℕ
choose e f g = bit_xor (bit_and e f) (bit_and (u32_mod - 1 - e) g)

majority : ℕ → ℕ → ℕ → ℕ
majority a b c = bit_or (bit_and a (bit_or b c)) (bit_and b c)

sig0 : ℕ → ℕ
unfolding rotr
sig0 x = bit_xor (bit_xor (rotr x 7) (rotr x 18)) (x / 2 ^ 3)

sig1 : ℕ → ℕ
unfolding rotr
sig1 x = bit_xor (bit_xor (rotr x 17) (rotr x 19)) (x / 2 ^ 10)

-- The first 16 words of `m`, big-endian from the block; `left` words from byte `j` on.
block_words : ℕ → ℕ → List ℕ → List ℕ
block_words zero j d = []
block_words (suc left) j d =
    bit_or
      (bit_or (bit_or (get_or d j 0 * 2 ^ 24 % u32_mod) (get_or d (j + 1) 0 * 2 ^ 16))
        (get_or d (j + 2) 0 * 2 ^ 8))
      (get_or d (j + 3) 0)
    ∷ block_words left (j + 4) d

-- The words from `k` on, each from the words before it.
schedule : ℕ → ℕ → List ℕ → List ℕ
unfolding sig0 sig1
schedule zero k m = m
schedule (suc left) k m =
    let w =
      (sig1 (get_or m (k - 2) 0)
        + get_or m (k - 7) 0
        + sig0 (get_or m (k - 15) 0)
        + get_or m (k - 16) 0)
      % u32_mod in
    schedule left (k + 1) (m ++ w ∷ [])

-- One round of the main loop, for the word `w` and the constant `k`.
round : ℕ → ℕ → Words8 → Words8
unfolding rotr choose majority
round w k s =
    let maj = majority s.a s.b s.c in
    let xor_a = bit_xor (bit_xor (rotr s.a 2) (rotr s.a 13)) (rotr s.a 22) in
    let ch = choose s.e s.f s.g in
    let xor_e = bit_xor (bit_xor (rotr s.e 6) (rotr s.e 11)) (rotr s.e 25) in
    let sum = (w + k + s.h + ch + xor_e) % u32_mod in
    record {
      a = (xor_a + maj + sum) % u32_mod;
      b = s.a;
      c = s.b;
      d = s.c;
      e = (s.d + sum) % u32_mod;
      f = s.e;
      g = s.f;
      h = s.g;
    }

rounds : ℕ → ℕ → List ℕ → Words8 → Words8
unfolding round
rounds zero i m s = s
rounds (suc left) i m s =
    rounds left (i + 1) m (round (get_or m i 0) (get_or round_constants i 0) s)

add_words : Words8 → Words8 → Words8
add_words s t = record {
  a = (s.a + t.a) % u32_mod;
  b = (s.b + t.b) % u32_mod;
  c = (s.c + t.c) % u32_mod;
  d = (s.d + t.d) % u32_mod;
  e = (s.e + t.e) % u32_mod;
  f = (s.f + t.f) % u32_mod;
  g = (s.g + t.g) % u32_mod;
  h = (s.h + t.h) % u32_mod;
}

-- What `transform` does to `m_state`, given the 64 bytes of `m_data`.
unfoldable pub compress : Words8 → List ℕ → Words8
unfolding block_words schedule rounds add_words
compress s d = add_words s (rounds 64 0 (schedule 48 16 (block_words 16 0 d)) s)
