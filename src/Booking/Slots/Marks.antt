-- ===== src/Booking/Slots/Marks.antt =====
-- When a slot is free: what the inner loop of getAvailableTimeSlots
-- (back/services/booking_service.cpp) marks it as.
use lisa_lashes_demo.Base.{
  ℕ, suc, ◌≡◌, ◌⊎◌, inl, inr, refl, subst, get_elem?, Bool, true, false, some, List, [], ◌∷◌, arith,
  All, Bool-cases,
}
use lisa_lashes_demo.Base.Int.{ℤ, leb_ℤ, ltb_ℤ}
use lisa_lashes_demo.Booking.Slots.{free_of}

-- The interval from `s` to `e` is apart from a booked one, or overlaps it.
abbrev pub Apart : ℤ → ℤ → ℤ × ℤ → Type 0
Apart s e b = (leb_ℤ e b.0 ≡ true) ⊎ (leb_ℤ b.1 s ≡ true)

abbrev pub Overlaps : ℤ → ℤ → ℤ × ℤ → Type 0
Overlaps s e b = (ltb_ℤ b.0 e ≡ true) × (ltb_ℤ s b.1 ≡ true)

-- Free is apart from all that is booked, taken is to overlap one of them.
abbrev pub IsMarked : List (ℤ × ℤ) → ℤ → ℤ → Bool → Type 0
IsMarked booked s e free =
    ((free ≡ true) × All (Apart s e) booked)
    ⊎ ((free ≡ false) × ((j : ℕ) × (b : ℤ × ℤ) × (get_elem? booked j ≡ some b) × Overlaps s e b))

free_of_skip :
    (b : ℤ × ℤ) (bs : List (ℤ × ℤ)) (s e : ℤ) → Apart s e b → free_of bs s e ≡ free_of (b ∷ bs) s e
unfolding free_of
free_of_skip b bs s e (inl h) = rw (free_of, h) refl
free_of_skip b bs s e (inr h) = ground arith

free_of_taken :
    (b : ℤ × ℤ) (bs : List (ℤ × ℤ)) (s e : ℤ)
    → leb_ℤ e b.0 ≡ false
    → leb_ℤ b.1 s ≡ false
    → free_of (b ∷ bs) s e ≡ false
unfolding free_of
free_of_taken b bs s e h k = rw (free_of, h, k) refl

later : (a b : ℤ) → leb_ℤ a b ≡ false → ltb_ℤ b a ≡ true
later a b h = ground arith

one_more :
    (b : ℤ × ℤ) (bs : List (ℤ × ℤ)) (s e : ℤ) (free : Bool)
    → Apart s e b
    → IsMarked bs s e free
    → IsMarked (b ∷ bs) s e free
one_more b bs s e free apart (inl (f, all)) = inl (f, (apart, all))
one_more b bs s e free apart (inr (f, (j, x, at_j, over))) = inr (f, (suc j, x, at_j, over))

-- The inner loop marks the interval by the booked ones.
pub free_of-IsMarked : (booked : List (ℤ × ℤ)) (s e : ℤ) → IsMarked booked s e (free_of booked s e)
unfolding free_of
free_of-IsMarked [] s e = inl (refl, tt)
free_of-IsMarked (b ∷ bs) s e =
    by_cases (free_of-IsMarked bs s e) (Bool-cases (leb_ℤ e b.0)) (Bool-cases (leb_ℤ b.1 s))
  where
    by_apart :
        IsMarked bs s e (free_of bs s e)
        → Apart s e b
        → IsMarked (b ∷ bs) s e (free_of (b ∷ bs) s e)
    by_apart ih apart =
        subst (IsMarked (b ∷ bs) s e) (free_of_skip b bs s e apart) (one_more b bs s e _ apart ih)

    by_cases :
        IsMarked bs s e (free_of bs s e)
        → (leb_ℤ e b.0 ≡ true) ⊎ (leb_ℤ e b.0 ≡ false)
        → (leb_ℤ b.1 s ≡ true) ⊎ (leb_ℤ b.1 s ≡ false)
        → IsMarked (b ∷ bs) s e (free_of (b ∷ bs) s e)
    by_cases ih (inl h) k = by_apart ih (inl h)
    by_cases ih (inr h) (inl k) = by_apart ih (inr k)
    by_cases ih (inr h) (inr k) =
        inr (free_of_taken b bs s e h k, (0, b, refl, (later e b.0 h, later b.1 s k)))
