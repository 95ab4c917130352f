-- ===== src/Cart/Tables.antt =====
-- The tables of docker/init.sql that back/services/cart_service.cpp works on, and its SQL
-- statements, each as a function of these tables. A row is a record and a table the list of its
-- rows. The keys that SERIAL draws for carts and orders are numbers, and what a request may name is
-- an `int`; prices and totals are
-- NUMERIC(10,2), counted in cents.
use mathlib.Core.Option
use lisa_lashes_demo.Base.{
  ℕ, ◌+◌, ◌-◌, ◌^◌, String, Bool, true, false, not, ◌&&◌, Option, none, some, List, [], ◌∷◌, ◌++◌,
  ◌==◌, if◌then◌else◌, select, Done,
}
use lisa_lashes_demo.Base.Text.{Text}
use lisa_lashes_demo.Base.Int.{ℤ, pos, negsuc, int_eq, ◌+ℤ◌, ◌-ℤ◌, ◌*ℤ◌, ltb_ℤ, fits_int}

pub record Product : Type 0 where
  pub id : ℤ
  pub name : Text
  pub description : Text
  pub price : ℤ
  pub stock : ℤ
  pub category : Text

pub record CartRow : Type 0 where
  pub id : ℕ
  pub user_id : ℤ
  pub updated_at : ℕ

pub record CartItem : Type 0 where
  pub cart_id : ℕ
  pub product_id : ℤ
  pub quantity : ℤ

pub record Order : Type 0 where
  pub id : ℕ
  pub user_id : ℤ
  pub total : ℤ
  pub status : String

pub record OrderItem : Type 0 where
  pub order_id : ℕ
  pub product_id : ℤ
  pub price_at_purchase : ℤ
  pub quantity : ℤ

-- `users` holds the ids of the table users; `next_cart`, `next_order` and
-- `next_product` are the SERIAL sequences.
pub record Shop : Type 0 where
  pub users : List ℤ
  pub products : List Product
  pub carts : List CartRow
  pub cart_items : List CartItem
  pub orders : List Order
  pub order_items : List OrderItem
  pub next_cart : ℕ
  pub next_order : ℕ
  pub next_product : ℕ

-- NUMERIC(10,2) holds eight digits before the point.
abbrev pub fits_numeric : ℤ → Bool
fits_numeric z = ltb_ℤ (negsuc (10 ^ 10 - 1)) z && ltb_ℤ z (pos (10 ^ 10))

module _ {A : Type 0} where
  -- The first row that satisfies the WHERE clause.
  unfoldable pub find_row : (A → Bool) → List A → Option A
  find_row p [] = none
  find_row p (x ∷ xs) = if p x then some x else find_row p xs

  -- UPDATE ... WHERE.
  unfoldable pub update_rows : (A → Bool) → (A → A) → List A → List A
  update_rows p f [] = []
  update_rows p f (x ∷ xs) = (if p x then f x else x) ∷ update_rows p f xs

  -- DELETE ... WHERE.
  unfoldable pub delete_rows : (A → Bool) → List A → List A
  delete_rows p xs = select (λ x. not (p x)) xs

unfoldable pub has : ℤ → List ℤ → Bool
has n [] = false
has n (m ∷ ms) = if int_eq m n then true else has n ms

unfoldable pub find_product : ℤ → List Product → Option Product
unfolding find_row
find_product product_id = find_row (λ p. int_eq p.id product_id)

abbrev pub is_item : ℕ → ℤ → CartItem → Bool
is_item cart_id product_id item = item.cart_id == cart_id && int_eq item.product_id product_id

unfoldable pub find_item : ℕ → ℤ → List CartItem → Option CartItem
unfolding find_row
find_item cart_id product_id = find_row (is_item cart_id product_id)

unfoldable pub items_of : ℕ → List CartItem → List CartItem
items_of cart_id = select (λ item. item.cart_id == cart_id)

abbrev pub answer : {A : Type 0} → A → Shop → Option (A × Shop)
answer a s = some (a, s)

-- INSERT INTO carts (user_id) VALUES ($1) ON CONFLICT (user_id) DO NOTHING. The sequence moves on
-- a conflict too; an unknown user breaks the foreign key.
unfoldable pub insert_cart : ℤ → ℕ → Shop → Option (Done × Shop)
unfolding find_row
insert_cart user_id now s =
    let row : CartRow = record { id = s.next_cart; user_id = user_id; updated_at = now } in
    let moved = record s { next_cart = s.next_cart + 1 } in
    elim (find_row (λ (c : CartRow). int_eq c.user_id user_id) s.carts) [
      | some c ↦ answer tt moved
      | none ↦
          if has user_id s.users
          then answer tt (record moved { carts = s.carts ++ row ∷ [] })
          else none
    ]

-- SELECT id FROM carts WHERE user_id = $1
unfoldable pub select_cart_id : ℤ → Shop → Option (Option ℕ × Shop)
unfolding find_row
select_cart_id user_id s =
    answer
      (Option.map (λ (c : CartRow). c.id)
        (find_row (λ (c : CartRow). int_eq c.user_id user_id) s.carts))
      s

-- SELECT stock FROM products WHERE id = $1
unfoldable pub select_stock : ℤ → Shop → Option (Option ℤ × Shop)
unfolding find_product
select_stock product_id s =
    answer (Option.map (λ (p : Product). p.stock) (find_product product_id s.products)) s

-- SELECT quantity FROM cart_items WHERE cart_id = $1 AND product_id = $2
unfoldable pub select_quantity : ℕ → ℤ → Shop → Option (Option ℤ × Shop)
unfolding find_item
select_quantity cart_id product_id s =
    answer (Option.map (λ (i : CartItem). i.quantity) (find_item cart_id product_id s.cart_items)) s

unfoldable pub put_item : ℕ → ℤ → ℤ → Option CartItem → Shop → Option (Done × Shop)
unfolding update_rows
put_item cart_id product_id quantity none s = answer tt (record s {
  cart_items =
      s.cart_items
      ++ record { cart_id = cart_id; product_id = product_id; quantity = quantity } ∷ [];
})
put_item cart_id product_id quantity (some old) s =
    let sum = old.quantity +ℤ quantity in
    if fits_int sum
    then answer tt (record s {
      cart_items =
          update_rows (is_item cart_id product_id) (λ i. record i { quantity = sum }) s.cart_items;
    })
    else none

-- INSERT INTO cart_items ... ON CONFLICT (cart_id, product_id) DO UPDATE SET quantity =
-- cart_items.quantity + EXCLUDED.quantity; a sum out of range is an error.
unfoldable pub upsert_item : ℕ → ℤ → ℤ → Shop → Option (Done × Shop)
unfolding find_item put_item
upsert_item cart_id product_id quantity s =
    put_item cart_id product_id quantity (find_item cart_id product_id s.cart_items) s

-- UPDATE carts SET updated_at = NOW() WHERE id = $1
unfoldable pub touch_cart : ℕ → ℕ → Shop → Option (Done × Shop)
unfolding update_rows
touch_cart cart_id now s = answer tt (record s {
  carts = update_rows (λ c. c.id == cart_id) (λ c. record c { updated_at = now }) s.carts;
})

-- UPDATE cart_items SET quantity = $1 WHERE cart_id = $2 AND product_id = $3; the answer tells
-- whether GetAffectedRows() is positive.
unfoldable pub update_quantity_row : ℕ → ℤ → ℤ → Shop → Option (Bool × Shop)
unfolding find_item update_rows
update_quantity_row cart_id product_id quantity s =
    elim (find_item cart_id product_id s.cart_items) [
      | none ↦ answer false s
      | some old ↦ answer true (record s {
        cart_items =
            update_rows (is_item cart_id product_id) (λ i. record i { quantity = quantity })
              s.cart_items;
      })
    ]

-- DELETE FROM cart_items WHERE cart_id = $1 AND product_id = $2
unfoldable pub delete_item : ℕ → ℤ → Shop → Option (Done × Shop)
unfolding delete_rows
delete_item cart_id product_id s =
    answer tt (record s { cart_items = delete_rows (is_item cart_id product_id) s.cart_items })

-- DELETE FROM cart_items WHERE cart_id = $1
unfoldable pub delete_items : ℕ → Shop → Option (Done × Shop)
unfolding delete_rows
delete_items cart_id s =
    answer tt (record s { cart_items = delete_rows (λ i. i.cart_id == cart_id) s.cart_items })

-- SELECT product_id, quantity FROM cart_items WHERE cart_id = $1 FOR UPDATE
unfoldable pub select_items : ℕ → Shop → Option (List CartItem × Shop)
unfolding items_of
select_items cart_id s = answer (items_of cart_id s.cart_items) s

-- SELECT stock, price FROM products WHERE id = $1 FOR UPDATE
unfoldable pub select_product : ℤ → Shop → Option (Option Product × Shop)
unfolding find_product
select_product product_id s = answer (find_product product_id s.products) s

-- cart_items ci JOIN products p ON p.id = ci.product_id
unfoldable pub joined : List Product → List CartItem → List (CartItem × Product)
unfolding find_product
joined products [] = []
joined products (i ∷ is) =
    let rest = joined products is in
    elim (find_product i.product_id products) [ none ↦ rest | some p ↦ (i, p) ∷ rest ]

-- SUM(p.price * ci.quantity)
unfoldable pub sum_joined : List (CartItem × Product) → ℤ
sum_joined [] = pos 0
sum_joined ((i, p) ∷ rest) = p.price *ℤ i.quantity +ℤ sum_joined rest

unfoldable pub cart_total : ℕ → Shop → ℤ
unfolding joined sum_joined items_of
cart_total cart_id s = sum_joined (joined s.products (items_of cart_id s.cart_items))

-- INSERT INTO orders (user_id, total, status) SELECT $1, CAST(SUM(...) AS NUMERIC(10,2)),
-- 'pending' ... RETURNING id, total::text
unfoldable pub insert_order : ℤ → ℕ → Shop → Option ((ℕ × ℤ) × Shop)
unfolding cart_total
insert_order user_id cart_id s =
    let total = cart_total cart_id s in
    let row : Order = record {
      id = s.next_order;
      user_id = user_id;
      total = total;
      status = "pending";
    } in
    if fits_numeric total && has user_id s.users
    then answer (s.next_order, total)
        (record s { orders = s.orders ++ row ∷ []; next_order = s.next_order + 1 })
    else none

-- INSERT INTO order_items (order_id, product_id, price_at_purchase, quantity) VALUES ...
unfoldable pub insert_order_item : OrderItem → Shop → Option (Done × Shop)
insert_order_item item s = answer tt (record s { order_items = s.order_items ++ item ∷ [] })

abbrev pub take_stock : ℤ → ℤ → List Product → List Product
take_stock product_id quantity =
    update_rows (λ p. int_eq p.id product_id) (λ p. record p { stock = p.stock -ℤ quantity })

-- UPDATE products SET stock = stock - $1 WHERE id = $2
unfoldable pub decrement_stock : ℤ → ℤ → Shop → Option (Done × Shop)
unfolding update_rows
decrement_stock product_id quantity s =
    answer tt (record s { products = take_stock product_id quantity s.products })

-- ORDER BY p.name, under the collation of the database.
unfoldable pub insert_sorted :
    (Text → Text → Bool)
    → CartItem × Product
    → List (CartItem × Product)
    → List (CartItem × Product)
insert_sorted collate row [] = row ∷ []
insert_sorted collate row (next ∷ rest) =
    let later = insert_sorted collate row rest in
    if collate row.1.name next.1.name then row ∷ next ∷ rest else next ∷ later

unfoldable pub sort_by_name :
    (Text → Text → Bool) → List (CartItem × Product) → List (CartItem × Product)
unfolding insert_sorted
sort_by_name collate [] = []
sort_by_name collate (row ∷ rest) = insert_sorted collate row (sort_by_name collate rest)

unfoldable pub subtotals_fit : List (CartItem × Product) → Bool
subtotals_fit [] = true
subtotals_fit ((i, p) ∷ rest) =
    let others = subtotals_fit rest in fits_numeric (p.price *ℤ i.quantity) && others

-- SELECT p.id, p.name, p.price, ci.quantity, CAST(p.price * ci.quantity AS NUMERIC(10,2)) ...
unfoldable pub select_contents :
    (Text → Text → Bool) → ℕ → Shop → Option (List (CartItem × Product) × Shop)
unfolding joined items_of sort_by_name subtotals_fit
select_contents collate cart_id s =
    let rows = joined s.products (items_of cart_id s.cart_items) in
    if subtotals_fit rows then answer (sort_by_name collate rows) s else none

-- SELECT CAST(COALESCE(SUM(p.price * ci.quantity), 0) AS NUMERIC(10,2)) ...
unfoldable pub select_total : ℕ → Shop → Option (ℤ × Shop)
unfolding cart_total
select_total cart_id s =
    if fits_numeric (cart_total cart_id s) then answer (cart_total cart_id s) s else none
