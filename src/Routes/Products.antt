-- ===== src/Routes/Products.antt =====
-- back/routes/product_routes.cpp.
use lisa_lashes_demo.Base.{not, Option, none, some, List, [], ◌∷◌, if◌then◌else◌}
use lisa_lashes_demo.Base.Int.{pos}
use lisa_lashes_demo.Base.Text.{Text, bytes}
use lisa_lashes_demo.Db.Casts.{Casts}
use lisa_lashes_demo.Db.Exec.{Result, ok, Exec, from_result, ◌>>=◌, ◌>>◌, try_catch}
use lisa_lashes_demo.Http.{
  Request, Response, message, payload, JsonLibrary, lookup, text_or_empty, int_or, has_fields,
  status_ok, created, bad_request, reply, fail_silently, fail_loudly, with_id,
}
use lisa_lashes_demo.Cart.Tables.{Product, Shop}
use lisa_lashes_demo.Products.{get_all_products, add_product, update_product, delete_product}

-- {"products": [...]}
abbrev pub Reply : Type 0
Reply = Response (List (Product × Text))

module _ {Json : Type 0} (json : JsonLibrary Json) (casts : Casts) where
  unfoldable pub get_product_routes : Exec Shop Reply
  get_product_routes =
      try_catch (do products ← get_all_products casts; reply status_ok (payload products))
        fail_silently

  -- static_cast<std::string>(body["category"]) or "Uncategorized"
  category_of : Option Json → Result Text
  category_of none = ok (bytes "Uncategorized")
  category_of (some value) = json.as_text value

  unfoldable pub post_product_routes : Request Json → Exec Shop Reply
  unfolding category_of
  post_product_routes req =
      try_catch
        (if not (has_fields req.body ("name" ∷ "price" ∷ "stock" ∷ []))
          then reply bad_request (message "Missing required fields: name, price, stock")
          else do
            name ← from_result (text_or_empty json req.body "name")
            price ← from_result (text_or_empty json req.body "price")
            stock ← from_result (int_or json (pos 0) req.body "stock")
            description ← from_result (text_or_empty json req.body "description")
            category ← from_result (category_of (lookup (bytes "category") req.body))
            add_product casts (record {
              name = name;
              description = description;
              price = price;
              stock = stock;
              category = category;
            })
            reply created (message "Product created"))
        fail_loudly

  unfoldable pub put_product_routes : Request Json → Exec Shop Reply
  put_product_routes req =
      try_catch
        (with_id req "id" λ id. do
          update_product casts json id req.body
          reply status_ok (message "Product updated"))
        fail_silently

  unfoldable pub delete_product_routes : Request Json → Exec Shop Reply
  delete_product_routes req =
      try_catch
        (with_id req "id" λ id. do delete_product id; reply status_ok (message "Product deleted"))
        fail_silently
