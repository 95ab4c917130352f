-- ===== src/Cart.antt =====
-- back/services/cart_service.h and cart_service.cpp: the methods of CartService. Each of them is
-- an action on the tables of the shop; the proofs are in the modules below. The guards on the
-- connection pool are in Db/Pool.
pub mod Tables
pub mod Atomicity
pub mod Quantities
pub mod Stock
use mathlib.Core.Option
use lisa_lashes_demo.Base.{
  ℕ, ◌+◌, ◌-◌, ◌^◌, String, Bool, Option, none, some, List, [], ◌∷◌, if◌then◌else◌, Done, length,
}
use lisa_lashes_demo.Base.Text.{Text}
use lisa_lashes_demo.Base.Int.{ℤ, pos, negsuc, ◌+ℤ◌, ◌-ℤ◌, leb_ℤ, ltb_ℤ}
use lisa_lashes_demo.Db.Exec.{
  Exception, invalid_argument, runtime_error, text, not_enough_stock, no_longer_exists,
  insufficient_stock, Exec, pure, raise, or_raise, statement, statement_at, ◌>>=◌, ◌>>◌,
  try_rethrow, begin, commit, rollback,
}
use Tables.{
  Product, CartItem, OrderItem, Shop, insert_cart, select_cart_id, select_stock, select_quantity,
  upsert_item, touch_cart, update_quantity_row, delete_item, delete_items, select_items,
  select_product, joined, cart_total, insert_order, insert_order_item, decrement_stock, items_of,
  Product, select_contents, select_total,
}

abbrev pub error : String → Exception
error what = runtime_error (text what)

abbrev quantity_error : Exception
quantity_error = invalid_argument (text "Quantity must be greater than 0")

-- `int` addition. C++ leaves an overflow undefined; here it wraps, as the machine's does.
unfoldable pub add_int : ℤ → ℤ → ℤ
add_int a b =
    let sum = a +ℤ b in
    if ltb_ℤ (pos (2 ^ 31 - 1)) sum
    then sum -ℤ pos (2 ^ 32)
    else if ltb_ℤ sum (negsuc (2 ^ 31 - 1))
    then sum +ℤ pos (2 ^ 32)
    else sum

-- GetEl(0, 0) of an empty result is the text "", on which std::stoi throws invalid_argument.
pub get_or_create_cart : ℤ → Exec Shop ℕ
get_or_create_cart user_id = do
  statement_at (insert_cart user_id)
  id ← statement (select_cart_id user_id)
  or_raise id (invalid_argument (text "stoi"))

pub get_cart_id_if_exists : ℤ → Exec Shop (Option ℕ)
get_cart_id_if_exists user_id = statement (select_cart_id user_id)

-- addToCart from the second query on.
put_stocked : ℤ → ℤ → ℤ → ℤ → ℕ → Exec Shop Done
put_stocked user_id product_id quantity stock cart_id = do
  existing ← statement (select_quantity cart_id product_id)
  let already_in_cart = Option.get_or existing (pos 0)
  if ltb_ℤ stock (add_int already_in_cart quantity)
      then raise (runtime_error (not_enough_stock (add_int already_in_cart quantity) stock))
      else do statement (upsert_item cart_id product_id quantity); statement_at (touch_cart cart_id)

pub add_to_cart : ℤ → ℤ → ℤ → Exec Shop Done
unfolding get_or_create_cart put_stocked
add_to_cart user_id product_id quantity =
    if leb_ℤ quantity (pos 0) then raise quantity_error else do
      found ← statement (select_stock product_id)
      stock ← or_raise found (error "Product not found")
      cart_id ← get_or_create_cart user_id
      put_stocked user_id product_id quantity stock cart_id

pub update_quantity : ℤ → ℤ → ℤ → Exec Shop Done
unfolding get_cart_id_if_exists
update_quantity user_id product_id quantity =
    if leb_ℤ quantity (pos 0) then raise quantity_error else do
      found ← statement (select_stock product_id)
      stock ← or_raise found (error "Product not found")
      if ltb_ℤ stock quantity then raise (runtime_error (not_enough_stock quantity stock)) else do
        existing ← get_cart_id_if_exists user_id
        cart_id ← or_raise existing (error "Item not found in cart")
        affected ← statement (update_quantity_row cart_id product_id quantity)
        if affected
            then statement_at (touch_cart cart_id)
            else raise (error "Item not found in cart")

remove_from : ℤ → Option ℕ → Exec Shop Done
remove_from product_id none = pure tt
remove_from product_id (some cart_id) = do
  statement (delete_item cart_id product_id)
  statement_at (touch_cart cart_id)

pub remove_item : ℤ → ℤ → Exec Shop Done
unfolding get_cart_id_if_exists remove_from
remove_item user_id product_id = do
  cart_id ← get_cart_id_if_exists user_id
  remove_from product_id cart_id

-- The JSON result of getCart; each row gives product_id, name, price, quantity and subtotal.
pub record CartContents : Type 0 where
  pub user_id : ℤ
  pub cart_id : Option ℕ
  pub items : List (CartItem × Product)
  pub item_count : ℕ
  pub total : ℤ

contents_of : (Text → Text → Bool) → ℤ → Option ℕ → Exec Shop CartContents
contents_of collate user_id none =
    pure (record { user_id = user_id; cart_id = none; items = []; item_count = 0; total = pos 0 })
contents_of collate user_id (some cart_id) = do
  rows ← statement (select_contents collate cart_id)
  total ← statement (select_total cart_id)
  pure (record {
    user_id = user_id;
    cart_id = some cart_id;
    items = rows;
    item_count = length rows;
    total = total;
  })

-- `collate` is the order of the database on names.
pub get_cart : (Text → Text → Bool) → ℤ → Exec Shop CartContents
unfolding get_cart_id_if_exists contents_of
get_cart collate user_id = do
  cart_id ← get_cart_id_if_exists user_id
  contents_of collate user_id cart_id

-- struct ItemInfo
pub record ItemInfo : Type 0 where
  pub product_id : ℤ
  pub quantity : ℤ
  pub price : ℤ

pub data Receipt : Type 0 where
  -- order_id and total of the JSON result; status and message are constants.
  placed : ℕ → ℤ → Receipt

check_stock : CartItem → Option Product → Exec Shop ItemInfo
check_stock item none = do rollback; raise (runtime_error (no_longer_exists item.product_id))
check_stock item (some p) =
    if ltb_ℤ p.stock item.quantity
    then (do
      rollback
      raise (runtime_error (insufficient_stock item.product_id item.quantity p.stock)))
    else pure (record { product_id = item.product_id; quantity = item.quantity; price = p.price })

-- Step 1: lock each product row and validate its stock.
validate : List CartItem → Exec Shop (List ItemInfo)
unfolding check_stock
validate [] = pure []
validate (item ∷ rest) = do
  found ← statement (select_product item.product_id)
  info ← check_stock item found
  infos ← validate rest
  pure (info ∷ infos)

-- Step 3: insert the order items and decrement the stock.
place_items : ℕ → List ItemInfo → Exec Shop Done
place_items order_id [] = pure tt
place_items order_id (item ∷ rest) = do
  statement (
      insert_order_item (record {
        order_id = order_id;
        product_id = item.product_id;
        price_at_purchase = item.price;
        quantity = item.quantity;
      }))
  statement (decrement_stock item.product_id item.quantity)
  place_items order_id rest

place_order : ℤ → ℕ → List ItemInfo → Exec Shop Receipt
unfolding place_items
place_order user_id cart_id items = do
  (order_id, total) ← statement (insert_order user_id cart_id)
  place_items order_id items
  statement (delete_items cart_id)
  commit
  pure (placed order_id total)

checkout_rows : ℤ → ℕ → List CartItem → Exec Shop Receipt
unfolding validate place_order
checkout_rows user_id cart_id [] = do rollback; raise (error "Cart is empty")
checkout_rows user_id cart_id (item ∷ rows) = do
  items ← validate (item ∷ rows)
  place_order user_id cart_id items

-- The body of the `try`.
checkout_body : ℤ → ℕ → Exec Shop Receipt
unfolding checkout_rows
checkout_body user_id cart_id = do
  begin
  rows ← statement (select_items cart_id)
  checkout_rows user_id cart_id rows

pub checkout : ℤ → Exec Shop Receipt
unfolding get_cart_id_if_exists checkout_body
checkout user_id = do
  existing ← get_cart_id_if_exists user_id
  cart_id ← or_raise existing (error "Cart is empty")
  try_rethrow (checkout_body user_id cart_id) rollback
