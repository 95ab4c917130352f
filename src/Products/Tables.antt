-- ===== src/Products/Tables.antt =====
-- The SQL of back/services/product_services.cpp, on the tables of the shop. A row of order_items
-- forbids the deletion of its product, a row of cart_items goes with it.
use mathlib.Core.Option
use lisa_lashes_demo.Base.{
  ◌+◌, Bool, false, not, ◌||◌, Option, none, some, List, [], ◌∷◌, ◌++◌, if◌then◌else◌, select, Done,
}
use lisa_lashes_demo.Base.Int.{ℤ, pos, int_eq}
use lisa_lashes_demo.Base.Text.{Text, is_empty}
use lisa_lashes_demo.Db.Casts.{Casts}
use lisa_lashes_demo.Cart.Tables.{Product, OrderItem, Shop}

-- SELECT ... FROM products ORDER BY id ASC; the rows are listed in that order.
unfoldable pub select_products : Shop → Option (List Product × Shop)
select_products s = some (s.products, s)

unfoldable pub add_row : Product → Option ℤ → Shop → Option (Done × Shop)
add_row row none s = none
add_row row (some price) s = some (
  tt,
  record s {
    products = s.products ++ record row { id = pos s.next_product; price = price } ∷ [];
    next_product = s.next_product + 1;
  },
)

-- INSERT INTO products ... VALUES ($1, $2, $3::numeric, $4::integer, $5)
unfoldable pub insert_product : Casts → Product → Text → Shop → Option (Done × Shop)
unfolding add_row
insert_product casts row price = add_row row (casts.to_numeric price)

-- What updateProduct sets: a text is "" and a stock is `none` where the request has none.
pub record ProductChanges : Type 0 where
  pub name : Text
  pub description : Text
  pub price : Text
  pub stock : Option ℤ
  pub category : Text

-- COALESCE(NULLIF(new, ''), old)
abbrev pub or_old : Text → Text → Text
or_old new old = if is_empty new then old else new

-- CASE WHEN $4 != '' THEN $4::numeric ELSE price END
abbrev pub changed_price : Casts → Text → ℤ → Option ℤ
changed_price casts text old = if is_empty text then some old else casts.to_numeric text

unfoldable pub changed_product : ProductChanges → Product → Option ℤ → Option Product
changed_product c p none = none
changed_product c p (some price) = some (record p {
  name = or_old c.name p.name;
  description = or_old c.description p.description;
  price = price;
  stock = Option.get_or c.stock p.stock;
  category = or_old c.category p.category;
})

-- Each row with the id; one that cannot be changed makes the statement fail.
unfoldable pub change_products : Casts → ℤ → ProductChanges → List Product → Option (List Product)
unfolding changed_product
change_products casts id c [] = some []
change_products casts id c (p ∷ ps) =
    let rest = change_products casts id c ps in
    elim (if int_eq p.id id
      then changed_product c p (changed_price casts c.price p.price)
      else some p) [ none ↦ none | some p' ↦ Option.map (λ later. p' ∷ later) rest ]

-- UPDATE products SET ... WHERE id = $1::integer
unfoldable pub update_product_row : Casts → ℤ → ProductChanges → Shop → Option (Done × Shop)
unfolding change_products
update_product_row casts id c s =
    Option.map (λ rows. (tt, record s { products = rows })) (change_products casts id c s.products)

unfoldable pub is_ordered : ℤ → List OrderItem → Bool
is_ordered id [] = false
is_ordered id (i ∷ is) = int_eq i.product_id id || is_ordered id is

-- DELETE FROM products WHERE id = $1::integer
unfoldable pub delete_product_row : ℤ → Shop → Option (Done × Shop)
unfolding is_ordered
delete_product_row id s =
    if is_ordered id s.order_items
    then none
    else some (
      tt,
      record s {
        products = select (λ p. not (int_eq p.id id)) s.products;
        cart_items = select (λ i. not (int_eq i.product_id id)) s.cart_items;
      },
    )
