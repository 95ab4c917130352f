-- ===== src/Cart/Stock.antt =====
-- CartService::addToCart never puts more into a cart than there is in stock.
use mathlib.Core.Option
use lisa_lashes_demo.Base.{
  ℕ, ◌≡◌, refl, sym, subst, ◌∙◌, ap, true, Option, none, some, ◌==◌, arith, if◌then◌else◌, ◌⊎◌, inl,
  inr,
}
use lisa_lashes_demo.Base.Int.{ℤ, pos, ◌+ℤ◌, ◌≤ℤ◌, leb_ℤ, ltb_ℤ, fits_int}
use lisa_lashes_demo.Db.Exec.{
  World, raise, not_enough_stock, statement, statement_at, or_raise, runtime_error, ◌>>◌, ◌>>=◌,
}
use lisa_lashes_demo.Db.Exec.Triple.{
  Outcome, Triple, Triple-raise, Triple-or_raise, Triple-if, Triple-bind, Triple-given,
  Triple-weaken,
}
use lisa_lashes_demo.Db.Exec.Query.{At, Triple-query-At, Triple-ask, Triple-ask-At}
use lisa_lashes_demo.Cart.{add_int, put_stocked, add_to_cart, get_or_create_cart, error}
use lisa_lashes_demo.Cart.Tables.{
  Product, CartItem, Shop, update_rows, find_product, find_item, insert_cart, select_cart_id,
  select_stock, select_quantity, upsert_item, touch_cart,
}
use lisa_lashes_demo.Cart.Quantities.{
  add_int_lem, quantity_in, cart_of, le_of_not_lt, put_item_lem, insert_cart_lem,
  select_cart_id_lem, touch_lem,
}

module _ (user_id product_id quantity : ℤ) (t₀ : Shop) where
  -- The user's cart holds `quantity` more of the product than before, and no more than the stock.
  abbrev pub Added : Shop → Type 0
  Added t =
      (cart_id : ℕ) × (p : Product) × (cart_of user_id t.carts ≡ some cart_id)
      × (find_product product_id t.products ≡ some p)
      × (quantity_in cart_id product_id t.cart_items
          ≡ quantity_in cart_id product_id t₀.cart_items +ℤ quantity)
      × (quantity_in cart_id product_id t.cart_items ≤ℤ p.stock)

  abbrev pub Refused : Shop → Type 0
  Refused t = (t.cart_items ≡ t₀.cart_items) ⊎ Added t

module _ (user_id product_id quantity : ℤ) (t₀ : Shop) (fits : fits_int quantity ≡ true) where
  refused :
      (n : ℕ) (t : Shop)
      → t.cart_items ≡ t₀.cart_items
      → (w : World Shop) → At n t w
      → Refused user_id product_id quantity t₀ w.tables
  refused n t same w h = inl (rw h.1 same)

  touched_lem :
      (n cart_id : ℕ) (p : Product) (t : Shop)
      → cart_of user_id t.carts ≡ some cart_id
      → find_product product_id t.products ≡ some p
      → quantity_in cart_id product_id t.cart_items
        ≡ quantity_in cart_id product_id t₀.cart_items +ℤ quantity
      → quantity_in cart_id product_id t.cart_items ≤ℤ p.stock
      → Triple
          (At n t)
          (statement_at (touch_cart cart_id))
          (λ _ w. Added user_id product_id quantity t₀ w.tables)
          (λ w. Refused user_id product_id quantity t₀ w.tables)
  unfolding touch_cart
  touched_lem n cart_id p t is_cart is_product more enough =
      Triple-weaken (statement_at (touch_cart cart_id)) (λ w h. h)
        (λ a w h.
          let made : h.0 ≡ record t {
            carts = update_rows (λ c. c.id == cart_id) (λ c. record c { updated_at = n }) t.carts;
          } =
            ground arith in
          subst (Added user_id product_id quantity t₀) (sym (h.2.1 ∙ made))
            (cart_id, p, touch_lem user_id cart_id n t.carts ∙ is_cart, is_product, more, enough))
        (λ w h. inr (
          subst (Added user_id product_id quantity t₀) (sym h.1)
            (cart_id, p, is_cart, is_product, more, enough)))
        (Triple-query-At n t (touch_cart cart_id))

  put_lem :
      (n cart_id : ℕ) (p : Product) (t : Shop)
      → cart_of user_id t.carts ≡ some cart_id
      → find_product product_id t.products ≡ some p
      → t.cart_items ≡ t₀.cart_items
      → add_int (quantity_in cart_id product_id t₀.cart_items) quantity ≤ℤ p.stock
      → Triple
          (At n t)
          (statement (upsert_item cart_id product_id quantity) >> statement_at (touch_cart cart_id))
          (λ _ w. Added user_id product_id quantity t₀ w.tables)
          (λ w. Refused user_id product_id quantity t₀ w.tables)
  unfolding ◌>>◌ upsert_item
  put_lem n cart_id p t is_cart is_product same enough =
      Triple-ask n t (refused n t same) (upsert_item cart_id product_id quantity) _ λ u t' e.
        let parts = put_item_lem cart_id product_id quantity t t' u _ fits refl e in
        let count = ap (λ items. quantity_in cart_id product_id items) same in
        let more : quantity_in cart_id product_id t'.cart_items
            ≡ quantity_in cart_id product_id t₀.cart_items +ℤ quantity =
          parts.0 ∙ ap (λ q. q +ℤ quantity) count in
        let exact =
          add_int_lem _ quantity (subst (λ q. fits_int (q +ℤ quantity) ≡ true) count parts.1) in
        touched_lem n cart_id p t' (rw parts.3 is_cart) (rw parts.2 is_product) more
          (subst (λ q. q ≤ℤ p.stock) (sym (more ∙ sym exact)) enough)

  cart_id_lem :
      (n : ℕ) (t : Shop)
      → t.cart_items ≡ t₀.cart_items
      → Triple
          (At n t)
          (get_or_create_cart user_id)
          (λ cart_id w.
            (t' : Shop) × (t'.cart_items ≡ t.cart_items)
            × (t'.products ≡ t.products)
            × (cart_of user_id t'.carts ≡ some cart_id)
            × At n t' w)
          (λ w. Refused user_id product_id quantity t₀ w.tables)
  unfolding get_or_create_cart ◌>>◌
  cart_id_lem n t same = Triple-ask-At n t (refused n t same) (insert_cart user_id) _ λ u t' e.
      let kept = insert_cart_lem user_id n t t' u e in
      Triple-ask n t' (refused n t' (kept.0 ∙ same)) (select_cart_id user_id) _ λ id t'' e'.
        let found = select_cart_id_lem user_id id t' t'' e' in
        Triple-or_raise id _
          (λ cart_id w is h. (t', kept.0, kept.1, sym found.0 ∙ is, (h.0, h.1 ∙ found.1)))
          (λ w h. refused n t'' (ap (λ (x : Shop). x.cart_items) found.1 ∙ kept.0 ∙ same) w h)

  select_stock_lem :
      (t t' : Shop) (found : Option ℤ)
      → select_stock product_id t ≡ some (found, t')
      → (found ≡ Option.map (λ (p : Product). p.stock) (find_product product_id t.products))
        × (t' ≡ t)
  unfolding select_stock
  select_stock_lem t t' found e = ground arith

  stock_of :
      (o : Option Product) (stock : ℤ)
      → Option.map (λ (p : Product). p.stock) o ≡ some stock
      → (p : Product) × (o ≡ some p) × (p.stock ≡ stock)
  stock_of none stock e = absurd (ground arith)
  stock_of (some p) stock e = (p, refl, ground arith)

  select_quantity_lem :
      (cart_id : ℕ) (t t' : Shop) (existing : Option ℤ)
      → select_quantity cart_id product_id t ≡ some (existing, t')
      → (Option.get_or existing (pos 0) ≡ quantity_in cart_id product_id t.cart_items) × (t' ≡ t)
  unfolding select_quantity
  select_quantity_lem cart_id t t' existing e =
      let parts : (existing
            ≡ Option.map (λ (i : CartItem). i.quantity) (find_item cart_id product_id t.cart_items))
          × (t' ≡ t) =
        ground arith in
      (ap (λ o. Option.get_or o (pos 0)) parts.0, parts.1)

  stocked_lem :
      (n : ℕ) (p : Product) (cart_id : ℕ) (t : Shop)
      → t.cart_items ≡ t₀.cart_items
      → find_product product_id t.products ≡ some p
      → cart_of user_id t.carts ≡ some cart_id
      → (existing : Option ℤ)
      → Option.get_or existing (pos 0) ≡ quantity_in cart_id product_id t₀.cart_items
      → Triple
          (At n t)
          (if ltb_ℤ p.stock (add_int (Option.get_or existing (pos 0)) quantity)
            then raise (
                runtime_error
                  (not_enough_stock (add_int (Option.get_or existing (pos 0)) quantity) p.stock))
            else statement (upsert_item cart_id product_id quantity)
              >> statement_at (touch_cart cart_id))
          (λ _ w. Added user_id product_id quantity t₀ w.tables)
          (λ w. Refused user_id product_id quantity t₀ w.tables)
  stocked_lem n p cart_id t same is_product is_cart existing count =
      Triple-if (ltb_ℤ p.stock (add_int (Option.get_or existing (pos 0)) quantity)) _ _
        (λ short. Triple-raise _ (refused n t same))
        (λ enough. put_lem n cart_id p t is_cart is_product same (
          subst (λ q. add_int q quantity ≤ℤ p.stock) count
            (le_of_not_lt p.stock (add_int (Option.get_or existing (pos 0)) quantity) enough)))

  after_cart :
      (n : ℕ) (p : Product) (t : Shop)
      → t.cart_items ≡ t₀.cart_items
      → find_product product_id t.products ≡ some p
      → (cart_id : ℕ) → cart_of user_id t.carts ≡ some cart_id
      → Triple
          (At n t)
          (put_stocked user_id product_id quantity p.stock cart_id)
          (λ _ w. Added user_id product_id quantity t₀ w.tables)
          (λ w. Refused user_id product_id quantity t₀ w.tables)
  unfolding put_stocked
  after_cart n p t same is_product cart_id is_cart =
      Triple-ask n t (refused n t same) (select_quantity cart_id product_id) _ λ existing t' e.
        let asked = select_quantity_lem cart_id t t' existing e in
        stocked_lem n p cart_id t' (rw asked.1 same) (rw asked.1 is_product) (rw asked.1 is_cart)
          existing (asked.0 ∙ ap (λ items. quantity_in cart_id product_id items) same)

  after_stock :
      (n : ℕ) (found : Option ℤ) (t : Shop)
      → found ≡ Option.map (λ (p : Product). p.stock) (find_product product_id t₀.products)
      → t.cart_items ≡ t₀.cart_items
      → t.products ≡ t₀.products
      → (stock : ℤ)
      → Triple
          (λ w. (found ≡ some stock) × At n t w)
          (get_or_create_cart user_id >>= put_stocked user_id product_id quantity stock)
          (λ _ w. Added user_id product_id quantity t₀ w.tables)
          (λ w. Refused user_id product_id quantity t₀ w.tables)
  after_stock n found t is_found same products stock = Triple-given _ λ is.
      let known = stock_of (find_product product_id t₀.products) stock (sym is_found ∙ is) in
      Triple-bind (get_or_create_cart user_id) _ (cart_id_lem n t same) λ cart_id. record {
        at = λ w h.
            (subst
                (λ s.
                  Triple (At n h.0) (put_stocked user_id product_id quantity s cart_id)
                    (λ _ w. Added user_id product_id quantity t₀ w.tables)
                    (λ w. Refused user_id product_id quantity t₀ w.tables))
                known.2
                (after_cart n known.0 h.0 (h.1 ∙ same)
                  (ap (find_product product_id) (h.2 ∙ products) ∙ known.1) cart_id h.3)).at
              w h.4;
      }

  add_to_cart_lem :
      (n : ℕ)
      → Triple
          (At n t₀)
          (add_to_cart user_id product_id quantity)
          (λ _ w. Added user_id product_id quantity t₀ w.tables)
          (λ w. Refused user_id product_id quantity t₀ w.tables)
  unfolding add_to_cart
  add_to_cart_lem n =
      Triple-if (leb_ℤ quantity (pos 0)) _ _ (λ e. Triple-raise _ (refused n t₀ refl))
        λ e. Triple-ask n t₀ (refused n t₀ refl) (select_stock product_id) _ λ found t e.
          let asked = select_stock_lem t₀ t found e in
          Triple-bind (or_raise found (error "Product not found")) _
            (Triple-or_raise {Q = λ stock w. (found ≡ some stock) × At n t w} found _
              (λ stock w is h. (is, h)) (refused n t (ap (λ (x : Shop). x.cart_items) asked.1)))
            (after_stock n found t asked.0 (ap (λ (x : Shop). x.cart_items) asked.1)
              (ap (λ (x : Shop). x.products) asked.1))

-- A call of CartService::addToCart with a quantity that is an `int`. If it returns, then the user
-- has a cart, the product exists, the cart holds `quantity` more of it than the same cart did
-- before the call, and that is no more than the product's stock. If it throws, then either no row
-- of cart_items has changed, or all of the above holds (its last statement, which only sets
-- updated_at, was refused).
pub add_to_cart-Added :
    (user_id product_id quantity : ℤ) (w : World Shop)
    → fits_int quantity ≡ true
    → Outcome
        (λ _ w'. Added user_id product_id quantity w.tables w'.tables)
        (λ w'. Refused user_id product_id quantity w.tables w'.tables)
        (add_to_cart user_id product_id quantity w)
add_to_cart-Added user_id product_id quantity w fits =
    (add_to_cart_lem user_id product_id quantity w.tables fits w.now).at w (refl, refl)
