-- ===== src/Products.antt =====
-- back/services/product_services.cpp: the methods of ProductRepository.
pub mod Tables
use lisa_lashes_demo.Base.{ℕ, Option, none, some, List, [], ◌∷◌, map, Done}
use lisa_lashes_demo.Base.Int.{ℤ, pos}
use lisa_lashes_demo.Base.Text.{Text, bytes}
use lisa_lashes_demo.Db.Casts.{Casts}
use lisa_lashes_demo.Db.Exec.{Result, ok, throw, Exec, pure, from_result, statement, ◌>>=◌}
use lisa_lashes_demo.Http.{JsonLibrary, text_or_empty, lookup}
use lisa_lashes_demo.Cart.Tables.{Product, Shop}
use Tables.{ProductChanges, select_products, insert_product, update_product_row, delete_product_row}

-- The fields of struct Product that a new product is given, its price as a text.
pub record NewProduct : Type 0 where
  pub name : Text
  pub description : Text
  pub price : Text
  pub stock : ℤ
  pub category : Text

-- The products with price::text.
unfoldable pub get_all_products : Casts → Exec Shop (List (Product × Text))
get_all_products casts = do
  rows ← statement select_products
  pure (map (λ (p : Product). (p, casts.numeric_text p.price)) rows)

unfoldable pub add_product : Casts → NewProduct → Exec Shop Done
add_product casts product = statement (
    insert_product casts
      (record {
        id = pos 0;
        name = product.name;
        description = product.description;
        price = pos 0;
        stock = product.stock;
        category = product.category;
      })
      product.price)

-- `stock` stays "" without such a member; std::to_string of an int is cast back by the server.
stock_of : {Json : Type 0} → JsonLibrary Json → Option Json → Result (Option ℤ)
stock_of json none = ok none
stock_of json (some value) = some_int (json.as_int value)
  where
    some_int : Result ℤ → Result (Option ℤ)
    some_int (ok z) = ok (some z)
    some_int (throw e) = throw e

unfoldable pub update_product :
    {Json : Type 0} → Casts → JsonLibrary Json → ℤ → List (Text × Json) → Exec Shop Done
unfolding stock_of
update_product casts json id obj = do
  name ← from_result (text_or_empty json obj "name")
  description ← from_result (text_or_empty json obj "description")
  price ← from_result (text_or_empty json obj "price")
  stock ← from_result (stock_of json (lookup (bytes "stock") obj))
  category ← from_result (text_or_empty json obj "category")
  statement (
      update_product_row casts id (record {
        name = name;
        description = description;
        price = price;
        stock = stock;
        category = category;
      }))

unfoldable pub delete_product : ℤ → Exec Shop Done
delete_product id = statement (delete_product_row id)
