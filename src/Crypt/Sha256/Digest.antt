-- ===== src/Crypt/Sha256/Digest.antt =====
-- The digest against the padded message.
use mathlib.Core.List.{foldl, foldl-append, append_assoc, append-nil}
use lisa_lashes_demo.Base.{
  ℕ, zero, suc, ◌+◌, ◌-◌, ◌*◌, ◌/◌, ◌%◌, ◌^◌, ◌≤◌, ◌<◌, ◌≡◌, refl, sym, ap, ◌∙◌, inl, inr,
  Bool-cases, List, [], ◌∷◌, ◌++◌, arith, length, take, drop, set, replicate, ltb, length-append,
  length-set, length-replicate, length-drop, length-take_of_le, take-set, take_all,
  take-append-drop, set-append,
}
use lisa_lashes_demo.Crypt.Sha256.{
  Sha256, init, transform, update_byte, update, zero_fill, write_length, pad_block, pad, digest,
  revert, revert_words, to_string, sha256,
}
use lisa_lashes_demo.Crypt.Sha256.Words.{Words8, compress, initial_state, state_words}
use lisa_lashes_demo.Crypt.Sha256.Padding.{
  length_bytes, zero_count, padding, hash_blocks, block_count, hash_message, length-padding,
  padded_blocks,
}
use lisa_lashes_demo.Crypt.Sha256.Feed.{
  Absorbed, feed, Holds, init-Holds, update-Holds, foldl-feed, hash_blocks-append,
}

take-zero_fill :
    (left i : ℕ) (d : List ℕ)
    → i + left ≤ length d
    → take (i + left) (zero_fill left i d) ≡ take i d ++ replicate left 0
unfolding zero_fill
take-zero_fill zero i d h =
    ap (λ (n : ℕ). take n d) {y = i} (omega arith) ∙ sym (append-nil (take i d))
take-zero_fill (suc left) i d h =
    ap (λ (n : ℕ). take n (zero_fill left (i + 1) (set d i 0))) {y = i + 1 + left} (omega arith)
    ∙ take-zero_fill left (i + 1) (set d i 0) (omega (arith, length-set d i 0))
    ∙ ap (λ (n : ℕ). take n (set d i 0) ++ replicate left 0) {y = suc i} (omega arith)
    ∙ ap (λ (l : List ℕ). l ++ replicate left 0) (take-set d i 0 (omega arith))
    ∙ append_assoc (take i d) (0 ∷ []) (replicate left 0)

length-zero_fill : (left i : ℕ) (d : List ℕ) → length (zero_fill left i d) ≡ length d
unfolding zero_fill
length-zero_fill zero i d = refl
length-zero_fill (suc left) i d = length-zero_fill left (i + 1) (set d i 0) ∙ length-set d i 0

write_length-append :
    (bits : ℕ) (front back : List ℕ)
    → length front ≡ 56
    → length back ≡ 8
    → write_length bits (front ++ back) ≡ front ++ length_bytes bits
unfolding write_length
write_length-append bits front (r₀ ∷ r₁ ∷ r₂ ∷ r₃ ∷ r₄ ∷ r₅ ∷ r₆ ∷ r₇ ∷ []) hf hb =
    rw
      (
        set-append front _ 63 7 (bits % 256) (omega arith),
        set-append front _ 62 6 (bits / 2 ^ 8 % 256) (omega arith),
        set-append front _ 61 5 (bits / 2 ^ 16 % 256) (omega arith),
        set-append front _ 60 4 (bits / 2 ^ 24 % 256) (omega arith),
        set-append front _ 59 3 (bits / 2 ^ 32 % 256) (omega arith),
        set-append front _ 58 2 (bits / 2 ^ 40 % 256) (omega arith),
        set-append front _ 57 1 (bits / 2 ^ 48 % 256) (omega arith),
        set-append front _ 56 0 (bits / 2 ^ 56 % 256) (omega arith),
      )
      refl
write_length-append bits front _ hf hb = absurd (omega arith)

-- The buffer's count of bits agrees with the length of what was fed, modulo 2 ^ 64.
abbrev Counts : ℕ → Sha256 → Type 0
Counts n s = ((s.bitlen + s.blocklen * 8) % 2 ^ 64 ≡ n * 8 % 2 ^ 64) × (s.blocklen ≡ n % 64)

update_byte-Counts : (n : ℕ) (s : Sha256) (b : ℕ) → Counts n s → Counts (n + 1) (update_byte s b)
unfolding update_byte transform
update_byte-Counts n s b v = ground arith

update-Counts :
    (m : List ℕ) (n k : ℕ) (s : Sha256) → n + length m ≡ k → Counts n s → Counts k (update s m)
unfolding update
update-Counts [] n k s e v = ground arith
update-Counts (b ∷ m) n k s e v =
    update-Counts m (n + 1) k (update_byte s b) (omega arith) (update_byte-Counts n s b v)

write_length-eq :
    (bits : ℕ) (d : List ℕ) → length d ≡ 64 → write_length bits d ≡ take 56 d ++ length_bytes bits
write_length-eq bits d e =
    ap (write_length bits) (sym (take-append-drop 56 d))
    ∙ write_length-append bits (take 56 d) (drop 56 d) (length-take_of_le 56 d (omega arith))
        (omega (arith, length-drop 56 d))

hash_one_block : (h : Words8) (l : List ℕ) → length l ≡ 64 → hash_blocks 1 h l ≡ compress h l
unfolding hash_blocks
hash_one_block h l e = rw (take_all 64 l (omega arith))

replicate-add : (m n : ℕ) → replicate {A = ℕ} (m + n) 0 ≡ replicate m 0 ++ replicate n 0
replicate-add zero n = ap (λ (k : ℕ). replicate k 0) {y = n} (omega arith)
replicate-add (suc m) n =
    ap (λ (k : ℕ). replicate k 0) {y = suc (m + n)} (omega arith) ∙ ap (◌∷◌ 0) (replicate-add m n)

module _ (s : Sha256) (h : Words8) (p : List ℕ) (v : Holds s (h, p)) where
  abbrev bits : ℕ
  bits = (s.bitlen + s.blocklen * 8) % 2 ^ 64

  abbrev marked : List ℕ
  marked = set s.data_bytes s.blocklen 0x80

  take-marked : take (s.blocklen + 1) marked ≡ p ++ 0x80 ∷ []
  take-marked =
      ap (λ (n : ℕ). take n marked) {y = suc s.blocklen} (omega arith)
      ∙ take-set s.data_bytes s.blocklen 0x80 (omega (arith, v.room, v.size))
      ∙ ap (λ (q : List ℕ). q ++ 0x80 ∷ []) v.pending

  abbrev filled : ℕ → List ℕ
  filled left = zero_fill left (s.blocklen + 1) marked

  length-filled : (left : ℕ) → length (filled left) ≡ 64
  length-filled left =
      length-zero_fill left (s.blocklen + 1) marked
      ∙ length-set s.data_bytes s.blocklen 0x80
      ∙ v.size

  -- The buffer up to the end of the zeros.
  take-filled :
      (left n : ℕ)
      → s.blocklen + 1 + left ≡ n
      → n ≤ 64
      → take n (filled left) ≡ p ++ 0x80 ∷ replicate left 0
  take-filled left n e fits =
      ap (λ (k : ℕ). take k (filled left)) (sym e)
      ∙ take-zero_fill left (s.blocklen + 1) marked
          (omega (arith, length-set s.data_bytes s.blocklen 0x80, v.size))
      ∙ ap (λ (q : List ℕ). q ++ replicate left 0) take-marked
      ∙ append_assoc p (0x80 ∷ []) (replicate left 0)

  pad_block_small :
      (left : ℕ)
      → s.blocklen + 1 + left ≡ 56
      → ((pad_block s).state ≡ s.state) × ((pad_block s).data_bytes ≡ filled left)
  unfolding pad_block
  pad_block_small left e = ground arith

  pad_block_large :
      (left : ℕ)
      → s.blocklen + 1 + left ≡ 64
      → left < 8
      → ((pad_block s).state ≡ compress s.state (filled left))
        × ((pad_block s).data_bytes ≡ replicate 56 0 ++ drop 56 (filled left))
  unfolding pad_block transform
  pad_block_large left e few = ground arith

  -- Room for the length: one block.
  pad_one_block :
      (left : ℕ)
      → s.blocklen + 1 + left ≡ 56
      → (pad s).state ≡ hash_blocks 1 h (p ++ 0x80 ∷ (replicate left 0 ++ length_bytes bits))
  unfolding pad transform
  pad_one_block left e =
      let small = pad_block_small left e in
      let block =
        write_length-eq bits (filled left) (length-filled left)
        ∙ ap (λ (l : List ℕ). l ++ length_bytes bits) (take-filled left 56 e (omega arith))
        ∙ append_assoc p (0x80 ∷ replicate left 0) (length_bytes bits) in
      rw (small.0, small.1, v.hash, block)
        (sym (
          hash_one_block h _ (
            omega (
              arith,
              e,
              v.count,
              length-append {0} p (0x80 ∷ (replicate left 0 ++ length_bytes bits)),
              length-append {0} (replicate left 0) (length_bytes bits),
              length-replicate {0} {A = ℕ} left 0,
            ))))

  -- No room: the zeros go on into a second block.
  pad_two_blocks :
      (left : ℕ)
      → s.blocklen + 1 + left ≡ 64
      → left < 8
      → (pad s).state ≡ hash_blocks 2 h (p ++ 0x80 ∷ (replicate (left + 56) 0 ++ length_bytes bits))
  unfolding pad transform
  pad_two_blocks left e few =
      let large = pad_block_large left e few in
      let first =
        sym (take_all 64 (filled left) (omega (arith, length-filled left)))
        ∙ take-filled left 64 e (omega arith) in
      let rest = replicate 56 0 ++ length_bytes bits in
      let regroup =
        ap (λ (l : List ℕ). p ++ 0x80 ∷ (l ++ length_bytes bits)) (replicate-add left 56)
        ∙ ap (λ (l : List ℕ). p ++ 0x80 ∷ l)
            (append_assoc (replicate left 0) (replicate 56 0) (length_bytes bits))
        ∙ sym (append_assoc p (0x80 ∷ replicate left 0) rest) in
      rw
        (
          large.0,
          large.1,
          v.hash,
          regroup,
          write_length-append bits (replicate 56 0) (drop 56 (filled left)) refl
              (omega (arith, length-drop 56 (filled left), length-filled left)),
          hash_blocks-append 1 h (p ++ 0x80 ∷ replicate left 0) rest (
              omega (
                arith,
                e,
                v.count,
                length-append {0} p (0x80 ∷ replicate left 0),
                length-replicate {0} {A = ℕ} left 0,
              )),
          hash_one_block (compress h (p ++ 0x80 ∷ replicate left 0)) rest refl,
          first,
        )
        refl

-- The state after `pad` is the fold of the compression function over the rest of the padded
-- message.
pad_lem :
    (n k : ℕ) (s : Sha256) (h : Words8) (p : List ℕ)
    → Holds s (h, p)
    → Counts n s
    → length p + length (padding n) ≡ 64 * k
    → (pad s).state ≡ hash_blocks k h (p ++ padding n)
pad_lem n k s h p v counts e = elim (Bool-cases (ltb s.blocklen 56)) [
  | inl small ↦
      pad_one_block s h p v (zero_count n) (ground arith)
      ∙ ap
          (λ (bits : ℕ).
            hash_blocks 1 h (p ++ 0x80 ∷ (replicate (zero_count n) 0 ++ length_bytes bits)))
          counts.0
      ∙ ap (λ (j : ℕ). hash_blocks j h (p ++ padding n)) (ground (arith, v.count, length-padding n))
  | inr large ↦
      pad_two_blocks s h p v (zero_count n - 56) (ground (arith, v.room)) (ground (arith, v.room))
      ∙ ap
          (λ (bits : ℕ).
            hash_blocks 2 h
              (p ++ 0x80 ∷ (replicate (zero_count n - 56 + 56) 0 ++ length_bytes bits)))
          counts.0
      ∙ ap
          (λ (z : ℕ).
            hash_blocks 2 h (p ++ 0x80 ∷ (replicate z 0 ++ length_bytes (n * 8 % 2 ^ 64))))
          {y = zero_count n} (ground (arith, v.room))
      ∙ ap (λ (j : ℕ). hash_blocks j h (p ++ padding n))
          (ground (arith, v.count, v.room, length-padding n))
]

init-Counts : (junk : List ℕ) → Counts 0 (init junk)
unfolding init
init-Counts junk = (refl, refl)

-- Whatever the bytes of `m_data` were, the state after `update` and `pad` is the fold of the
-- compression function over the blocks of the padded message.
pub state-pad-update :
    (junk m : List ℕ) → length junk ≡ 64 → (pad (update (init junk) m)).state ≡ hash_message m
unfolding hash_message
state-pad-update junk m size =
    let n = length m in
    let a = foldl feed (initial_state, []) m in
    let s = update (init junk) m in
    let v = update-Holds m (init junk) (initial_state, []) (init-Holds junk size) in
    let c = update-Counts m 0 n (init junk) (omega arith) (init-Counts junk) in
    let k = (length a.1 + length (padding n)) / 64 in
    let whole : length a.1 + length (padding n) ≡ 64 * k =
      omega (arith, v.count, c.1, length-padding n) in
    pad_lem n k s a.0 a.1 v c whole
    ∙ sym (foldl-feed (padding n) k a.0 a.1 (omega (arith, v.count, v.room)) whole)
    ∙ ap (λ (r : Absorbed). r.0) (sym (foldl-append feed (initial_state, []) m (padding n)))
    ∙ foldl-feed (m ++ padding n) (block_count n) initial_state [] (omega arith)
        (omega (arith, length-append {0} m (padding n), padded_blocks n))

-- The hexadecimal digest of a message is that of the fold of the compression function over the
-- blocks of the padded message, whatever the 64 bytes that the constructor leaves unset hold.
pub sha256-hash_message :
    (junk m : List ℕ)
    → length junk ≡ 64
    → sha256 junk m ≡ to_string (revert_words (state_words (hash_message m)))
unfolding sha256 digest revert
sha256-hash_message junk m size =
    ap (λ (w : Words8). to_string (revert_words (state_words w))) (state-pad-update junk m size)
