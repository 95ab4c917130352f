-- ===== src/Cart/Quantities.antt =====
-- What the statements of CartService::addToCart do to the quantities in a cart.
use mathlib.Core.Option
use lisa_lashes_demo.Base.{
  ℕ, ◌≡◌, refl, Bool, true, false, Option, none, some, List, [], ◌∷◌, ◌++◌, ◌==◌, arith,
  if◌then◌else◌, inl, inr, Done, Bool-cases,
}
use lisa_lashes_demo.Base.Int.{ℤ, pos, ◌+ℤ◌, ◌≤ℤ◌, int_eq, ltb_ℤ, fits_int}
use lisa_lashes_demo.Cart.{add_int}
use lisa_lashes_demo.Cart.Tables.{
  CartRow, CartItem, Shop, find_row, update_rows, find_item, is_item, insert_cart, select_cart_id,
  put_item,
}

-- The sum of two `int`s that has the range of an `int` does not wrap.
pub add_int_lem : (a b : ℤ) → fits_int (a +ℤ b) ≡ true → add_int a b ≡ a +ℤ b
unfolding add_int
add_int_lem a b h = ground arith

abbrev pub quantity_in : ℕ → ℤ → List CartItem → ℤ
quantity_in cart_id product_id items =
    Option.get_or (Option.map (λ (i : CartItem). i.quantity) (find_item cart_id product_id items))
      (pos 0)

abbrev pub cart_of : ℤ → List CartRow → Option ℕ
cart_of user_id carts =
    Option.map (λ (c : CartRow). c.id) (find_row (λ (c : CartRow). int_eq c.user_id user_id) carts)

is_item_self :
    (cart_id : ℕ) (product_id quantity : ℤ)
    → is_item cart_id product_id
        (record { cart_id = cart_id; product_id = product_id; quantity = quantity })
      ≡ true
is_item_self cart_id product_id quantity = ground arith

none_lem :
    {A : Type 0} (b : Bool) (a : A) (rest : Option A)
    → (if b then some a else rest) ≡ none
    → (b ≡ false) × (rest ≡ none)
none_lem true a rest h = ground arith
none_lem false a rest h = (refl, h)

some_lem :
    {A : Type 0} (b : Bool) (a old : A) (rest : Option A)
    → b ≡ false
    → (if b then some a else rest) ≡ some old
    → rest ≡ some old
some_lem true a old rest e h = absurd (ground arith)
some_lem false a old rest e h = h

module _ (cart_id : ℕ) (product_id quantity : ℤ) where
  abbrev row : CartItem
  row = record { cart_id = cart_id; product_id = product_id; quantity = quantity }

  find_item-append :
      (items : List CartItem)
      → find_item cart_id product_id items ≡ none
      → quantity_in cart_id product_id (items ++ row ∷ []) ≡ quantity
  unfolding find_item find_row
  find_item-append [] h = rw (is_item_self cart_id product_id quantity) refl
  find_item-append (i ∷ is) h =
      let parts = none_lem (is_item cart_id product_id i) i _ h in
      rw parts.0 (find_item-append is parts.1)

  find_item-update :
      (items : List CartItem) (old : CartItem)
      → find_item cart_id product_id items ≡ some old
      → quantity_in cart_id product_id
          (update_rows (is_item cart_id product_id) (λ i. record i { quantity = quantity }) items)
        ≡ quantity
  unfolding find_item find_row update_rows
  find_item-update [] old h = absurd (ground arith)
  find_item-update (i ∷ is) old h = elim (Bool-cases (is_item cart_id product_id i)) [
    | inl same ↦ rw (same, same) refl
    | inr other ↦ rw (other, other) (find_item-update is old (some_lem _ i old _ other h))
  ]

pub touch_lem :
    (user_id : ℤ) (cart_id now : ℕ) (carts : List CartRow)
    → cart_of user_id
        (update_rows (λ c. c.id == cart_id) (λ c. record c { updated_at = now }) carts)
      ≡ cart_of user_id carts
unfolding find_row update_rows
touch_lem user_id cart_id now [] = refl
touch_lem user_id cart_id now (c ∷ cs) =
    let rest = touch_lem user_id cart_id now cs in
    elim (Bool-cases (c.id == cart_id)) [
      | inl touched ↦ elim (Bool-cases (int_eq c.user_id user_id)) [
        | inl mine ↦ rw (touched, mine) refl
        | inr other ↦ rw (touched, other) rest
      ]
      | inr kept ↦ elim (Bool-cases (int_eq c.user_id user_id)) [
        | inl mine ↦ rw (kept, mine) refl
        | inr other ↦ rw (kept, other) rest
      ]
    ]

zero_add : (a : ℤ) → pos 0 +ℤ a ≡ a
unfolding ◌+ℤ◌
zero_add a = ground arith

-- What the upsert leaves of the quantity in the cart.
abbrev Upserted : ℕ → ℤ → ℤ → Shop → Shop → Type 0
Upserted cart_id product_id quantity t t' =
    (quantity_in cart_id product_id t'.cart_items
      ≡ quantity_in cart_id product_id t.cart_items +ℤ quantity)
    × (fits_int (quantity_in cart_id product_id t.cart_items +ℤ quantity) ≡ true)
    × (t'.products ≡ t.products)
    × (t'.carts ≡ t.carts)

pub put_item_lem :
    (cart_id : ℕ) (product_id quantity : ℤ) (t t' : Shop) (u : Done) (o : Option CartItem)
    → fits_int quantity ≡ true
    → find_item cart_id product_id t.cart_items ≡ o
    → put_item cart_id product_id quantity o t ≡ some (u, t')
    → Upserted cart_id product_id quantity t t'
unfolding put_item
put_item_lem cart_id product_id quantity t t' u none fits e h =
    let made : t' ≡ record t { cart_items = t.cart_items ++ row cart_id product_id quantity ∷ [] } =
      ground arith in
    rw (made, e, zero_add quantity)
      (find_item-append cart_id product_id quantity t.cart_items e, fits, refl, refl)
put_item_lem cart_id product_id quantity t t' u (some old) fits e h =
    let parts : (fits_int (old.quantity +ℤ quantity) ≡ true)
        × (t' ≡ record t {
          cart_items =
              update_rows (is_item cart_id product_id)
                (λ i. record i { quantity = old.quantity +ℤ quantity }) t.cart_items;
        }) =
      ground arith in
    rw (parts.1, e)
      (
        find_item-update cart_id product_id (old.quantity +ℤ quantity) t.cart_items old e,
        parts.0,
        refl,
        refl,
      )

pub insert_cart_lem :
    (user_id : ℤ) (now : ℕ) (t t' : Shop) (u : Done)
    → insert_cart user_id now t ≡ some (u, t')
    → (t'.cart_items ≡ t.cart_items) × (t'.products ≡ t.products)
unfolding insert_cart
insert_cart_lem user_id now t t' u h = ground arith

pub select_cart_id_lem :
    (user_id : ℤ) (id : Option ℕ) (t t' : Shop)
    → select_cart_id user_id t ≡ some (id, t')
    → (id ≡ cart_of user_id t.carts) × (t' ≡ t)
unfolding select_cart_id
select_cart_id_lem user_id id t t' e = ground arith

pub le_of_not_lt : (a b : ℤ) → ltb_ℤ a b ≡ false → b ≤ℤ a
le_of_not_lt a b h = ground arith
