-- ===== src/Cart/Atomicity.antt =====
-- CartService::checkout is all or nothing, whatever statements the server refuses.
use lisa_lashes_demo.Base.{
  ℕ, ◌+◌, ◌≡◌, refl, ◌∙◌, Option, none, some, List, [], ◌∷◌, ◌++◌, arith, ◌==◌,
}
use lisa_lashes_demo.Base.Int.{ℤ, ◌≤ℤ◌, ltb_ℤ}
use lisa_lashes_demo.Db.Exec.{
  Exception, World, pure, or_raise, statement, ◌>>=◌, ◌>>◌, try_rethrow, begin, commit, rollback,
  runtime_error, no_longer_exists,
}
use lisa_lashes_demo.Db.Exec.Triple.{
  Outcome, Triple, Triple-pure, Triple-or_raise, Triple-if, Triple-try_rethrow, Triple-bind,
  Triple-then, Triple-begin, Triple-commit, Triple-statement-Idle, Triple-weaken, Triple-step,
  Triple-step_any, Triple-step_then, Triple-rollback-raise, Triple-given, rollback-Unchanged, Idle,
  InTransaction, Unchanged, Unchanged-Idle,
}
use lisa_lashes_demo.Cart.Tables.{
  Product, CartItem, Order, OrderItem, Shop, select_cart_id, select_items, select_product,
  insert_order, insert_order_item, decrement_stock, delete_items, delete_rows, items_of,
  find_product, take_stock, cart_total,
}
use lisa_lashes_demo.Cart.{
  ItemInfo, Receipt, placed, error, check_stock, validate, place_items, place_order, checkout_rows,
  checkout_body, checkout, get_cart_id_if_exists,
}

-- The items that passed the check of Step 1: each row's product exists and has enough stock.
abbrev pub Validated : Shop → List CartItem → List ItemInfo → Type 0
Validated s [] [] = Unit
Validated s (row ∷ rows) (info ∷ infos) =
    ((p : Product) × (find_product row.product_id s.products ≡ some p)
      × (row.quantity ≤ℤ p.stock)
      × (info ≡ record { product_id = row.product_id; quantity = row.quantity; price = p.price }))
    × Validated s rows infos
Validated s _ _ = ⊥

abbrev pub order_line : ℕ → ItemInfo → OrderItem
order_line order_id item = record {
  order_id = order_id;
  product_id = item.product_id;
  price_at_purchase = item.price;
  quantity = item.quantity;
}

-- What Step 3 makes of the tables.
pub with_items : ℕ → List ItemInfo → Shop → Shop
with_items order_id [] s = s
with_items order_id (item ∷ rest) s = with_items order_id rest (record s {
  order_items = s.order_items ++ order_line order_id item ∷ [];
  products = take_stock item.product_id item.quantity s.products;
})

abbrev pub new_order : ℤ → ℕ → Shop → Order
new_order user_id cart_id s = record {
  id = s.next_order;
  user_id = user_id;
  total = cart_total cart_id s;
  status = "pending";
}

-- The whole effect of a checkout.
pub after_checkout : ℤ → ℕ → List ItemInfo → Shop → Shop
after_checkout user_id cart_id infos s =
    let ordered = record s {
      orders = s.orders ++ new_order user_id cart_id s ∷ [];
      next_order = s.next_order + 1;
    } in
    let sold = with_items s.next_order infos ordered in
    record sold { cart_items = delete_rows (λ i. i.cart_id == cart_id) sold.cart_items }

module _ (t₀ : Shop) where
  check_stock_lem :
      (row : CartItem) (o : Option Product)
      → Triple
          (InTransaction t₀ t₀)
          (check_stock row o)
          (λ info w.
            ((p : Product) × (o ≡ some p)
              × (row.quantity ≤ℤ p.stock)
              × (info ≡ record {
                product_id = row.product_id;
                quantity = row.quantity;
                price = p.price;
              }))
            × InTransaction t₀ t₀ w)
          (Unchanged t₀)
  unfolding check_stock
  check_stock_lem row none =
      Triple-rollback-raise t₀ t₀ (runtime_error (no_longer_exists row.product_id))
  check_stock_lem row (some p) =
      Triple-if (ltb_ℤ p.stock row.quantity) _ _ (λ short. Triple-rollback-raise t₀ t₀ _)
        (λ enough. Triple-pure _ (λ w h. ((p, refl, ground arith, refl), h)))

  validate_lem :
      (rows : List CartItem)
      → Triple
          (InTransaction t₀ t₀)
          (validate rows)
          (λ infos w. Validated t₀ rows infos × InTransaction t₀ t₀ w)
          (Unchanged t₀)
  unfolding validate
  validate_lem [] = Triple-pure [] (λ w h. (tt, h))
  validate_lem (row ∷ rows) =
      Triple-step t₀ t₀ (select_product row.product_id) (find_product row.product_id t₀.products) t₀
        _ (unfold select_product in refl)
        (Triple-bind (check_stock row (find_product row.product_id t₀.products)) _
          (check_stock_lem row _)
          λ info. Triple-given (validate rows >>= λ infos. pure (info ∷ infos)) λ good.
            Triple-bind (validate rows) _ (validate_lem rows)
              λ infos. Triple-pure (info ∷ infos) (λ w h. ((good, h.0), h.1)))

  place_items_lem :
      (order_id : ℕ) (infos : List ItemInfo) (t : Shop)
      → Triple
          (InTransaction t₀ t)
          (place_items order_id infos)
          (λ _. InTransaction t₀ (with_items order_id infos t))
          (Unchanged t₀)
  unfolding with_items place_items insert_order_item decrement_stock
  place_items_lem order_id [] t = Triple-pure tt (λ w h. h)
  place_items_lem order_id (info ∷ infos) t =
      Triple-step_then t₀ t _ tt _ _ refl
        (Triple-step_then t₀ _ _ tt _ _ refl (place_items_lem order_id infos _))

  -- What a checkout that returns has done.
  abbrev pub Sold : ℤ → ℕ → List ItemInfo → Receipt → World Shop → Type 0
  Sold user_id cart_id infos receipt w =
      (receipt ≡ placed t₀.next_order (cart_total cart_id t₀))
      × Idle (after_checkout user_id cart_id infos t₀) w

  abbrev ordered : ℤ → ℕ → Shop
  ordered user_id cart_id = record t₀ {
    orders = t₀.orders ++ new_order user_id cart_id t₀ ∷ [];
    next_order = t₀.next_order + 1;
  }

  insert_order_lem :
      (user_id : ℤ) (cart_id : ℕ) (a : ℕ × ℤ) (t : Shop)
      → insert_order user_id cart_id t₀ ≡ some (a, t)
      → (a ≡ (t₀.next_order, cart_total cart_id t₀)) × (t ≡ ordered user_id cart_id)
  unfolding insert_order
  insert_order_lem user_id cart_id a t e = ground arith

  placed_lem :
      (user_id : ℤ) (cart_id : ℕ) (infos : List ItemInfo) (a : ℕ × ℤ) (t : Shop)
      → a ≡ (t₀.next_order, cart_total cart_id t₀)
      → t ≡ ordered user_id cart_id
      → Triple
          (InTransaction t₀ t)
          (place_items a.0 infos
            >> (statement (delete_items cart_id) >> (commit >> pure (placed a.0 a.1))))
          (Sold user_id cart_id infos)
          (Unchanged t₀)
  unfolding after_checkout delete_items
  placed_lem user_id cart_id infos a t e e' =
      rw (e, e')
        (Triple-then (place_items t₀.next_order infos) _
          (place_items_lem t₀.next_order infos (ordered user_id cart_id))
          λ _.
            Triple-step_then t₀ _ _ tt _ _ refl
              (Triple-then commit _ (Triple-commit t₀ _) λ _. Triple-pure _ (λ w h. (refl, h))))

  place_order_lem :
      (user_id : ℤ) (cart_id : ℕ) (infos : List ItemInfo)
      → Triple
          (InTransaction t₀ t₀)
          (place_order user_id cart_id infos)
          (Sold user_id cart_id infos)
          (Unchanged t₀)
  unfolding place_order
  place_order_lem user_id cart_id infos =
      Triple-step_any t₀ t₀ (insert_order user_id cart_id) _ λ a t' e.
        let eqs = insert_order_lem user_id cart_id a t' e in
        placed_lem user_id cart_id infos a t' eqs.0 eqs.1

  -- What a checkout that returns has done with the cart `cart_id`.
  abbrev pub CheckedOut : ℤ → ℕ → Receipt → World Shop → Type 0
  CheckedOut user_id cart_id receipt w =
      (infos : List ItemInfo) × Validated t₀ (items_of cart_id t₀.cart_items) infos
      × (¬ (infos ≡ []))
      × Sold user_id cart_id infos receipt w

  nonempty_lem :
      (row : CartItem) (rows : List CartItem) (infos : List ItemInfo)
      → Validated t₀ (row ∷ rows) infos
      → ¬ (infos ≡ [])
  nonempty_lem row rows [] v e = v
  nonempty_lem row rows (info ∷ infos) v e = grind arith

  checkout_rows_lem :
      (user_id : ℤ) (cart_id : ℕ) (rows : List CartItem)
      → items_of cart_id t₀.cart_items ≡ rows
      → Triple
          (InTransaction t₀ t₀)
          (checkout_rows user_id cart_id rows)
          (CheckedOut user_id cart_id)
          (Unchanged t₀)
  unfolding checkout_rows
  checkout_rows_lem user_id cart_id [] e = Triple-rollback-raise t₀ t₀ _
  checkout_rows_lem user_id cart_id (row ∷ rows) e =
      Triple-bind (validate (row ∷ rows)) _ (validate_lem (row ∷ rows)) λ infos.
        Triple-given (place_order user_id cart_id infos) λ good.
          Triple-weaken (place_order user_id cart_id infos) (λ w p. p)
            (λ receipt w sold. (infos, rw e good, nonempty_lem row rows infos good, sold))
            (λ w h. h) (place_order_lem user_id cart_id infos)

  checkout_body_lem :
      (user_id : ℤ) (cart_id : ℕ)
      → Triple (Idle t₀) (checkout_body user_id cart_id) (CheckedOut user_id cart_id) (Unchanged t₀)
  unfolding checkout_body
  checkout_body_lem user_id cart_id = Triple-then begin _ (Triple-begin t₀) λ _.
      Triple-step t₀ t₀ (select_items cart_id) (items_of cart_id t₀.cart_items) t₀ _
        (unfold select_items in refl)
        (checkout_rows_lem user_id cart_id (items_of cart_id t₀.cart_items) refl)

  -- The cart of a user.
  abbrev pub IsCart : ℤ → ℕ → Type 0
  IsCart user_id cart_id = select_cart_id user_id t₀ ≡ some (some cart_id, t₀)

  abbrev Found : ℤ → ℕ → World Shop → Type 0
  Found user_id cart_id w = IsCart user_id cart_id × Idle t₀ w

  select_cart_id_lem :
      (user_id : ℤ) (existing : Option ℕ) (t : Shop)
      → select_cart_id user_id t₀ ≡ some (existing, t)
      → t ≡ t₀
  unfolding select_cart_id
  select_cart_id_lem user_id existing t e = ground arith

  found_lem :
      (user_id : ℤ) (existing : Option ℕ) (e : Exception)
      → Triple
          (λ w. (t : Shop) × (select_cart_id user_id t₀ ≡ some (existing, t)) × Idle t w)
          (or_raise existing e)
          (Found user_id)
          (Unchanged t₀)
  found_lem user_id existing e =
      Triple-or_raise existing e
        (λ cart_id w is h.
          let same = select_cart_id_lem user_id existing h.0 h.1 in (cc, (h.2.0, cc)))
        (λ w h. Unchanged-Idle t₀ w (h.2.0, h.2.1 ∙ select_cart_id_lem user_id existing h.0 h.1))

  checkout_lem :
      (user_id : ℤ)
      → Triple
          (Idle t₀)
          (checkout user_id)
          (λ receipt w.
            (cart_id : ℕ) × IsCart user_id cart_id × CheckedOut user_id cart_id receipt w)
          (Unchanged t₀)
  unfolding checkout get_cart_id_if_exists
  checkout_lem user_id =
      Triple-bind (statement (select_cart_id user_id)) _
        (Triple-weaken (statement (select_cart_id user_id)) (λ w p. p) (λ a w q. q)
          (Unchanged-Idle t₀) (Triple-statement-Idle t₀ (select_cart_id user_id)))
        λ existing.
          Triple-bind (or_raise existing (error "Cart is empty")) _ (found_lem user_id existing _)
            λ cart_id. Triple-given (try_rethrow (checkout_body user_id cart_id) rollback) λ is.
              Triple-try_rethrow (checkout_body user_id cart_id) rollback
                (Triple-weaken (checkout_body user_id cart_id) (λ w p. p)
                  (λ receipt w done. (cart_id, is, done)) (λ w h. h)
                  (checkout_body_lem user_id cart_id))
                (rollback-Unchanged t₀)

-- A checkout of `user_id` that starts outside a transaction, over a connection on which any of
-- the statements may fail, either throws and leaves the tables that other connections see as they
-- were, or returns. If it returns, then the user had a cart that was not empty, each of its rows
-- named a product with at least the row's quantity in stock, the receipt has the id of the new
-- order and the sum of price times quantity, the transaction is closed, and the tables are those
-- with that order, one order item for each row at the price of the product, the quantities taken
-- from the stock, and the cart's rows deleted.
pub checkout_atomic :
    (user_id : ℤ) (w : World Shop)
    → w.saved ≡ none
    → Outcome
        (λ receipt w'.
          (cart_id : ℕ) × IsCart w.tables user_id cart_id
          × CheckedOut w.tables user_id cart_id receipt w')
        (Unchanged w.tables)
        (checkout user_id w)
checkout_atomic user_id w idle = (checkout_lem w.tables user_id).at w (idle, refl)
