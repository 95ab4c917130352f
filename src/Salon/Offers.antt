-- ===== src/Salon/Offers.antt =====
-- What setServicesForResource does to the services of a resource.
use lisa_lashes_demo.Base.{
  ◌≡◌, refl, sym, ◌∙◌, Bool, true, false, not, ◌&&◌, ◌||◌, none, some, List, [], ◌∷◌, ◌++◌, arith,
  select, Bool-cases, inl, inr, if◌then◌else◌, Done,
}
use lisa_lashes_demo.Base.Int.{ℤ, int_eq, int_eq_sound}
use lisa_lashes_demo.Db.Exec.{World, statement}
use lisa_lashes_demo.Db.Exec.Triple.{
  Outcome, Triple, Triple-pure, Triple-then, Triple-weaken, Triple-statement-Idle, Idle,
}
use lisa_lashes_demo.Salon.{insert_offers, set_services_for_resource}
use lisa_lashes_demo.Salon.Tables.{Catalog, offers, insert_offer, delete_offers}

abbrev pub lists : List ℤ → ℤ → Bool
lists [] id = false
lists (x ∷ xs) id = int_eq x id || lists xs id

offers-append :
    (r s r' s' : ℤ) (rows : List (ℤ × ℤ))
    → offers r s (rows ++ (r', s') ∷ []) ≡ (offers r s rows || (int_eq r' r && int_eq s' s))
unfolding offers
offers-append r s r' s' [] = ground arith
offers-append r s r' s' (p ∷ rows) = let ih = offers-append r s r' s' rows in ground arith

same_resource : (a id r : ℤ) → int_eq a id ≡ true → int_eq a r ≡ int_eq r id
same_resource a id r h = ground arith

other_resource : (a id r : ℤ) → int_eq a id ≡ false → int_eq a r && int_eq r id ≡ false
other_resource a id r h = ground arith

offers-select :
    (id r s : ℤ) (rows : List (ℤ × ℤ))
    → offers r s (select (λ p. not (int_eq p.0 id)) rows) ≡ (not (int_eq r id) && offers r s rows)
unfolding offers
offers-select id r s [] = ground arith
offers-select id r s (p ∷ rows) =
    let ih = offers-select id r s rows in
    let same = same_resource p.0 id r in
    let other = other_resource p.0 id r in
    elim (Bool-cases (int_eq p.0 id)) [
      | inl e ↦ rw (e, ih, same e) (both_ways (int_eq r id) (int_eq p.1 s) (offers r s rows))
      | inr e ↦
          rw (e, ih) (apart (int_eq p.0 r) (int_eq r id) (int_eq p.1 s) (offers r s rows) (other e))
    ]
  where
    both_ways : (a b c : Bool) → (not a && c) ≡ (not a && ((a && b) || c))
    both_ways a b c = ground arith

    apart :
        (x a b c : Bool) → x && a ≡ false → ((x && b) || (not a && c)) ≡ (not a && ((x && b) || c))
    apart x a b c h = ground arith

offered_already :
    (id x r s : ℤ) (rows : List (ℤ × ℤ))
    → offers id x rows ≡ true
    → offers r s rows ≡ (offers r s rows || (int_eq id r && int_eq x s))
offered_already id x r s rows h = elim (Bool-cases (int_eq id r && int_eq x s)) [
  | inl e ↦
      let parts = and_true (int_eq id r) (int_eq x s) e in
      let is_r = int_eq_sound id r parts.0 in
      let is_s = int_eq_sound x s parts.1 in
      let there : offers r s rows ≡ true = rw (sym is_r, sym is_s) h in rw there refl
  | inr e ↦ rw e (or_false (offers r s rows))
]
  where
    and_true : (a b : Bool) → a && b ≡ true → (a ≡ true) × (b ≡ true)
    and_true a b h = ground arith

    or_false : (b : Bool) → b ≡ (b || false)
    or_false b = ground arith

insert_offer_lem :
    (id x r s : ℤ) (u : Done) (c c' : Catalog)
    → insert_offer id x c ≡ some (u, c')
    → offers r s c'.offered ≡ (offers r s c.offered || (int_eq id r && int_eq x s))
unfolding insert_offer
insert_offer_lem id x r s u c c' h =
    let already = offered_already id x r s c.offered in
    let added = offers-append r s id x c.offered in ground arith

none_added : (b a : Bool) → b ≡ (b || (a && false))
none_added b a = ground arith

one_more : (n o m x l : Bool) → n ≡ (o || (m && x)) → (n || (m && l)) ≡ (o || (m && (x || l)))
one_more n o m x l h = ground arith

same_others : (n o q m x : Bool) → n ≡ (o || (m && x)) → q ≡ m → (not q && n) ≡ (not q && o)
same_others n o q m x h e = ground arith

final : (n o q m l : Bool) → n ≡ (not q && o) → q ≡ m → (n || (m && l)) ≡ (if q then l else o)
final n o q m l h e = ground arith

still : (n o q : Bool) → n ≡ (not q && o) → (not q && n) ≡ (not q && o)
still n o q h = ground arith

int_eq_sym : (a b : ℤ) → int_eq a b ≡ int_eq b a
int_eq_sym a b = ground arith

module _ (id r s : ℤ) where
  -- The answer of `offers` for `r` and `s`, when `s` is listed for the resource `id`.
  Grown : Bool → List ℤ → World Catalog → Type 0
  Grown old ids w =
      (w.saved ≡ none) × (offers r s w.tables.offered ≡ (old || (int_eq id r && lists ids s)))

  -- The other resources have the services that they had.
  Kept : Bool → World Catalog → Type 0
  Kept old w = (not (int_eq r id) && offers r s w.tables.offered) ≡ (not (int_eq r id) && old)

  insert_offers_lem :
      (ids : List ℤ) (c : Catalog)
      → Triple
          (Idle c)
          (insert_offers id ids)
          (λ u. Grown (offers r s c.offered) ids)
          (Kept (offers r s c.offered))
  unfolding insert_offers Grown Kept
  insert_offers_lem [] c =
      Triple-pure _ (λ w h. (h.0, rw h.1 (none_added (offers r s c.offered) (int_eq id r))))
  insert_offers_lem (x ∷ ids) c =
      Triple-then (statement (insert_offer id x)) _
        (Triple-weaken (statement (insert_offer id x)) (λ w h. h) (λ a w h. h) (λ w h. rw h.1 refl)
          (Triple-statement-Idle c (insert_offer id x)))
        λ u. record { at = λ w h. (next u h.0 h.1 (insert_offers_lem ids h.0)).at w h.2 }
    where
      next :
          (u : Done) (c' : Catalog)
          → insert_offer id x c ≡ some (u, c')
          → Triple
              (Idle c')
              (insert_offers id ids)
              (λ u. Grown (offers r s c'.offered) ids)
              (Kept (offers r s c'.offered))
          → Triple
              (Idle c')
              (insert_offers id ids)
              (λ u. Grown (offers r s c.offered) (x ∷ ids))
              (Kept (offers r s c.offered))
      next u c' e t =
          let step = insert_offer_lem id x r s u c c' e in
          Triple-weaken (insert_offers id ids) (λ w h. h)
            (λ a w h. (
              h.0,
              h.1 ∙ one_more _ (offers r s c.offered) (int_eq id r) (int_eq x s) (lists ids s) step,
            ))
            (λ w h.
              h
              ∙ same_others _ (offers r s c.offered) (int_eq r id) (int_eq id r) (int_eq x s) step
                  (int_eq_sym r id))
            t

  delete_offers_lem :
      (c : Catalog)
      → Triple
          (Idle c)
          (statement (delete_offers id))
          (λ u w.
            (c' : Catalog) × (offers r s c'.offered ≡ (not (int_eq r id) && offers r s c.offered))
            × Idle c' w)
          (Idle c)
  unfolding delete_offers
  delete_offers_lem c =
      Triple-weaken (statement (delete_offers id)) (λ w h. h)
        (λ u w h. (h.0, removed u h.0 h.1, h.2)) (λ w h. h)
        (Triple-statement-Idle c (delete_offers id))
    where
      removed :
          (u : Done) (c' : Catalog)
          → delete_offers id c ≡ some (u, c')
          → offers r s c'.offered ≡ (not (int_eq r id) && offers r s c.offered)
      removed u c' e = let h = offers-select id r s c.offered in ground arith

  set_services_lem :
      (ids : List ℤ) (c : Catalog)
      → Triple
          (Idle c)
          (set_services_for_resource id ids)
          (λ u w.
            offers r s w.tables.offered
            ≡ (if int_eq r id then lists ids s else offers r s c.offered))
          (Kept (offers r s c.offered))
  unfolding set_services_for_resource Kept Grown
  set_services_lem ids c =
      Triple-then (statement (delete_offers id)) _
        (Triple-weaken (statement (delete_offers id)) (λ w h. h) (λ a w h. h) (λ w h. rw h.1 refl)
          (delete_offers_lem c))
        λ u. record { at = λ w h. (next h.0 h.1 (insert_offers_lem ids h.0)).at w h.2 }
    where
      next :
          (c' : Catalog)
          → offers r s c'.offered ≡ (not (int_eq r id) && offers r s c.offered)
          → Triple
              (Idle c')
              (insert_offers id ids)
              (λ u. Grown (offers r s c'.offered) ids)
              (Kept (offers r s c'.offered))
          → Triple
              (Idle c')
              (insert_offers id ids)
              (λ u w.
                offers r s w.tables.offered
                ≡ (if int_eq r id then lists ids s else offers r s c.offered))
              (Kept (offers r s c.offered))
      next c' e t =
          Triple-weaken (insert_offers id ids) (λ w h. h)
            (λ a w h.
              h.1
              ∙ final _ (offers r s c.offered) (int_eq r id) (int_eq id r) (lists ids s) e
                  (int_eq_sym r id))
            (λ w h. h ∙ still _ (offers r s c.offered) (int_eq r id) e) t

-- When setServicesForResource returns outside a transaction, the resource offers the services of the
-- list and no others, and each other resource offers what it did. When it throws, the other
-- resources still do, but what the resource offered before may be lost.
pub set_services_for_resource-offers :
    (id : ℤ) (ids : List ℤ) (r s : ℤ) (w : World Catalog)
    → w.saved ≡ none
    → Outcome
        (λ u w'.
          offers r s w'.tables.offered
          ≡ (if int_eq r id then lists ids s else offers r s w.tables.offered))
        (λ w'.
          (not (int_eq r id) && offers r s w'.tables.offered)
          ≡ (not (int_eq r id) && offers r s w.tables.offered))
        (set_services_for_resource id ids w)
unfolding Kept
set_services_for_resource-offers id ids r s w idle =
    (set_services_lem id r s ids w.tables).at w (idle, refl)
