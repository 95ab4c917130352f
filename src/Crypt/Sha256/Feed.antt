-- ===== src/Crypt/Sha256/Feed.antt =====
-- The buffer of SHA256 against a plain list of pending bytes.
use mathlib.Core.List.{foldl, append_assoc}
use lisa_lashes_demo.Base.{
  ℕ, zero, suc, ◌+◌, ◌*◌, ◌<◌, ◌≡◌, refl, sym, ap, ◌∙◌, inl, inr, Bool-cases, List, [], ◌∷◌, ◌++◌,
  arith, length, take, drop, set, ◌==◌, if◌then◌else◌, length-append, length-set, take-set,
  take_all,
}
use lisa_lashes_demo.Crypt.Sha256.{Sha256, init, transform, update_byte, update}
use lisa_lashes_demo.Crypt.Sha256.Words.{Words8, compress, initial_state}
use lisa_lashes_demo.Crypt.Sha256.Padding.{hash_blocks}

abbrev pub Absorbed : Type 0
Absorbed = Words8 × List ℕ

pub feed : Absorbed → ℕ → Absorbed
feed (h, p) b = if length p + 1 == 64 then (compress h (p ++ b ∷ []), []) else (h, p ++ b ∷ [])

-- `s` has hashed to `h` and holds the pending bytes `p`.
pub record Holds (s : Sha256) (a : Absorbed) : Type 0 where
  pub hash : s.state ≡ a.0
  pub pending : take s.blocklen s.data_bytes ≡ a.1
  pub count : length a.1 ≡ s.blocklen
  pub size : length s.data_bytes ≡ 64
  pub room : s.blocklen < 64

pub init-Holds : (junk : List ℕ) → length junk ≡ 64 → Holds (init junk) (initial_state, [])
unfolding init
init-Holds junk h = record {
  hash = refl;
  pending = refl;
  count = refl;
  size = h;
  room = omega arith;
}

module _ (s : Sha256) (h : Words8) (p : List ℕ) (b : ℕ) (v : Holds s (h, p)) where
  abbrev written : List ℕ
  written = set s.data_bytes s.blocklen b

  length-written : length written ≡ 64
  length-written = length-set s.data_bytes s.blocklen b ∙ v.size

  -- The byte joins the pending ones.
  take-written : take (s.blocklen + 1) written ≡ p ++ b ∷ []
  take-written =
      ap (λ (n : ℕ). take n written) {y = suc s.blocklen} (omega arith)
      ∙ take-set s.data_bytes s.blocklen b (omega (arith, v.room, v.size))
      ∙ ap (λ (q : List ℕ). q ++ b ∷ []) v.pending

  -- A full buffer is the pending bytes and the new one.
  full_block : s.blocklen + 1 ≡ 64 → written ≡ p ++ b ∷ []
  full_block e =
      sym (take_all 64 written (omega (arith, length-written)))
      ∙ ap (λ (n : ℕ). take n written) (sym e)
      ∙ take-written

  pub update_byte-Holds : Holds (update_byte s b) (feed (h, p) b)
  unfolding update_byte feed transform
  update_byte-Holds = elim (Bool-cases (length p + 1 == 64)) [
    | inl full ↦ ground (arith, v.hash, v.count, v.room, length-written, full_block)
    | inr open_block ↦
        ground (
          arith,
          v.hash,
          v.count,
          v.room,
          length-written,
          take-written,
          length-append {0} p (b ∷ []),
        )
  ]

pub update-Holds :
    (m : List ℕ) (s : Sha256) (a : Absorbed) → Holds s a → Holds (update s m) (foldl feed a m)
unfolding update
update-Holds [] s a v = v
update-Holds (b ∷ m) s (h, p) v = update-Holds m _ _ (update_byte-Holds s h p b v)

take-append : (xs ys : List ℕ) (n : ℕ) → length xs ≡ n → take n (xs ++ ys) ≡ xs
take-append [] ys zero e = refl
take-append [] ys (suc n) e = absurd (omega arith)
take-append (x ∷ xs) ys zero e = absurd (omega arith)
take-append (x ∷ xs) ys (suc n) e = ap (◌∷◌ x) (take-append xs ys n (omega arith))

drop-append : (xs ys : List ℕ) (n : ℕ) → length xs ≡ n → drop n (xs ++ ys) ≡ ys
drop-append [] ys zero e = refl
drop-append [] ys (suc n) e = absurd (omega arith)
drop-append (x ∷ xs) ys zero e = absurd (omega arith)
drop-append (x ∷ xs) ys (suc n) e = drop-append xs ys n (omega arith)

-- One whole block in front.
pub hash_blocks-append :
    (n : ℕ) (h : Words8) (block rest : List ℕ)
    → length block ≡ 64
    → hash_blocks (suc n) h (block ++ rest) ≡ hash_blocks n (compress h block) rest
unfolding hash_blocks
hash_blocks-append n h block rest e = rw (take-append block rest 64 e, drop-append block rest 64 e)

-- Feeding bytes up to the end of a block is folding over the blocks.
pub foldl-feed :
    (m : List ℕ) (n : ℕ) (h : Words8) (p : List ℕ)
    → length p < 64
    → length p + length m ≡ 64 * n
    → (foldl feed (h, p) m).0 ≡ hash_blocks n h (p ++ m)
unfolding hash_blocks feed
foldl-feed [] zero h p room e = refl
foldl-feed [] (suc n) h p room e = absurd (omega arith)
foldl-feed (b ∷ m) zero h p room e = absurd (omega arith)
foldl-feed (b ∷ m) (suc n) h p room e = elim (Bool-cases (length p + 1 == 64)) [
  | inl full ↦
      rw (full, foldl, feed)
        (foldl-feed m n (compress h (p ++ b ∷ [])) [] (omega arith) (ground arith)
          ∙ sym (
              hash_blocks-append n h (p ++ b ∷ []) m (ground (arith, length-append {0} p (b ∷ []))))
          ∙ ap (hash_blocks (suc n) h) (append_assoc p (b ∷ []) m))
  | inr open_block ↦
      rw (open_block, foldl, feed)
        (foldl-feed m (suc n) h (p ++ b ∷ []) (ground (arith, length-append {0} p (b ∷ [])))
            (ground (arith, length-append {0} p (b ∷ [])))
          ∙ ap (hash_blocks (suc n) h) (append_assoc p (b ∷ []) m))
]
