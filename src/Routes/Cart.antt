-- ===== src/Routes/Cart.antt =====
-- back/routes/cart_routes.cpp.
use lisa_lashes_demo.Base.{ℕ, Bool, Option, none, some, List, [], ◌∷◌, ◌&&◌, if◌then◌else◌, not}
use lisa_lashes_demo.Base.Int.{ℤ, pos}
use lisa_lashes_demo.Base.Text.{
  Text, bytes, is_empty, text_eq, stoi, Parsed, number, no_digits, too_large,
}
use lisa_lashes_demo.Db.Exec.{
  Exception, invalid_argument, out_of_range, runtime_error, Exec, pure, from_result, ◌>>=◌, ◌>>◌,
  try_catch,
}
use lisa_lashes_demo.Http.{
  Cookie, Request, Response, Body, message, what, payload, respond, JsonLibrary, query, int_of,
  int_or, has_fields, status_ok, created, bad_request, unauthorized, internal_server_error,
}
use lisa_lashes_demo.Cart.{
  CartContents, Receipt, get_cart, add_to_cart, update_quantity, remove_item, checkout,
}
use lisa_lashes_demo.Cart.Tables.{Shop}

pub data Payload : Type 0 where
  cart : CartContents → Payload
  receipt : Receipt → Payload

abbrev pub Reply : Type 0
Reply = Response Payload

or_next : Parsed → Option ℤ → Option ℤ
or_next (number z) rest = some z
or_next no_digits rest = rest
or_next too_large rest = rest

-- The first cookie named user_id whose value std::stoi reads.
pub get_user_id_from_cookie : List Cookie → Option ℤ
unfolding or_next
get_user_id_from_cookie [] = none
get_user_id_from_cookie (c ∷ cs) =
    let rest = get_user_id_from_cookie cs in
    if text_eq c.name (bytes "user_id") && not (is_empty c.value)
    then or_next (stoi c.value) rest
    else rest

reply : ℕ → Body Payload → Exec Shop Reply
reply status body = pure (respond status body)

server_failure : Exec Shop Reply
server_failure = pure (respond internal_server_error (message "Internal server error"))

-- The two catch clauses whose answer is what() with status 400, before the one with status 500.
refused : Exception → Exec Shop Reply
unfolding reply server_failure
refused (invalid_argument m) = reply bad_request (what m)
refused (out_of_range m) = server_failure
refused (runtime_error m) = reply bad_request (what m)

-- POST /api/cart/checkout has one such clause, for std::runtime_error.
checkout_refused : Exception → Exec Shop Reply
unfolding reply server_failure
checkout_refused (invalid_argument m) = server_failure
checkout_refused (out_of_range m) = server_failure
checkout_refused (runtime_error m) = reply bad_request (what m)

-- The guard that each handler starts with.
with_user : Option ℤ → (ℤ → Exec Shop Reply) → Exec Shop Reply
unfolding reply
with_user none handler = reply unauthorized (message "Not authenticated")
with_user (some id) handler = handler id

module _ {Json : Type 0} (json : JsonLibrary Json) (collate : Text → Text → Bool) where
  pub get_cart_route : Request Json → Exec Shop Reply
  unfolding get_user_id_from_cookie with_user reply server_failure
  get_cart_route req =
      try_catch
        (with_user (get_user_id_from_cookie req.cookies) λ user_id. do
          contents ← get_cart collate user_id
          reply status_ok (payload (cart contents)))
        (λ e. server_failure)

  with_item : Request Json → (ℤ → ℤ → Exec Shop Reply) → Exec Shop Reply
  unfolding reply
  with_item req handler =
      if not (has_fields req.body ("product_id" ∷ "quantity" ∷ []))
      then reply bad_request (message "Missing required fields: product_id, quantity")
      else do
        product_id ← from_result (int_or json (pos 0) req.body "product_id")
        quantity ← from_result (int_or json (pos 0) req.body "quantity")
        handler product_id quantity

  pub post_cart_item_route : Request Json → Exec Shop Reply
  unfolding get_user_id_from_cookie with_user with_item reply refused
  post_cart_item_route req =
      try_catch
        (with_user (get_user_id_from_cookie req.cookies) λ user_id.
          with_item req λ product_id quantity. do
            add_to_cart user_id product_id quantity
            reply created (message "Item added to cart"))
        refused

  pub put_cart_item_route : Request Json → Exec Shop Reply
  unfolding get_user_id_from_cookie with_user with_item reply refused
  put_cart_item_route req =
      try_catch
        (with_user (get_user_id_from_cookie req.cookies) λ user_id.
          with_item req λ product_id quantity. do
            update_quantity user_id product_id quantity
            reply status_ok (message "Cart item updated"))
        refused

  pub delete_cart_item_route : Request Json → Exec Shop Reply
  unfolding get_user_id_from_cookie with_user reply server_failure
  delete_cart_item_route req =
      try_catch
        (with_user (get_user_id_from_cookie req.cookies) λ user_id.
          if is_empty (query req "product_id")
          then reply bad_request (message "Missing required query parameter: product_id")
          else do
            product_id ← from_result (int_of (query req "product_id"))
            remove_item user_id product_id
            reply status_ok (message "Item removed from cart"))
        (λ e. server_failure)

  pub post_checkout_route : Request Json → Exec Shop Reply
  unfolding get_user_id_from_cookie with_user reply checkout_refused
  post_checkout_route req =
      try_catch
        (with_user (get_user_id_from_cookie req.cookies)
          λ user_id. do result ← checkout user_id; reply created (payload (receipt result)))
        checkout_refused
