-- ===== src/Routes/Salon.antt =====
-- back/routes/salon_service_routes.cpp and resource_routes.cpp.
use lisa_lashes_demo.Base.{not, Option, none, some, List, [], ◌∷◌, if◌then◌else◌}
use lisa_lashes_demo.Base.Int.{ℤ}
use lisa_lashes_demo.Db.Casts.{Casts}
use lisa_lashes_demo.Db.Exec.{Result, ok, throw, Exec, from_result, ◌>>=◌, ◌>>◌, try_catch}
use lisa_lashes_demo.Http.{
  Request, Response, message, payload, JsonLibrary, field, text_or_empty, has_fields, status_ok,
  created, bad_request, reply, fail_silently, with_id,
}
use lisa_lashes_demo.Salon.{
  SalonService, Resource, get_all_services, add_service, update_service, delete_service,
  set_services_for_resource, get_all_resources, add_resource, update_resource, delete_resource,
}
use lisa_lashes_demo.Salon.Tables.{Units, Catalog}

-- {"services": [...]}, {"resources": [...]} and {"message": "Resource created", "id": ...}
pub data Payload : Type 0 where
  services : List SalonService → Payload
  resources : List Resource → Payload
  resource_created : ℤ → Payload

abbrev pub Reply : Type 0
Reply = Response Payload

module _ {Json : Type 0} (json : JsonLibrary Json) (units : Units) (casts : Casts) where
  unfoldable pub get_salon_services_route : Exec Catalog Reply
  get_salon_services_route =
      try_catch (do rows ← get_all_services units casts; reply status_ok (payload (services rows)))
        fail_silently

  unfoldable pub post_salon_service_route : Request Json → Exec Catalog Reply
  unfolding text_or_empty
  post_salon_service_route req =
      try_catch
        (if not (has_fields req.body ("name" ∷ []))
          then reply bad_request (message "name is required")
          else do
            name ← from_result (text_or_empty json req.body "name")
            duration ← from_result (text_or_empty json req.body "duration")
            price ← from_result (text_or_empty json req.body "price")
            add_service units casts name duration price
            reply created (message "Service created"))
        fail_silently

  unfoldable pub put_salon_service_route : Request Json → Exec Catalog Reply
  put_salon_service_route req =
      try_catch
        (with_id req "id"
          λ id. do update_service json id req.body; reply status_ok (message "Service updated"))
        fail_silently

  unfoldable pub delete_salon_service_route : Request Json → Exec Catalog Reply
  delete_salon_service_route req =
      try_catch
        (with_id req "id" λ id. do delete_service id; reply status_ok (message "Service deleted"))
        fail_silently

  abbrev then_id : {A B : Type 0} → Result A → (A → Result B) → Result B
  then_id (ok a) f = f a
  then_id (throw e) f = throw e

  -- static_cast<int>(arr[0]), static_cast<int>(arr[1]), ...
  ids_of : List Json → Result (List ℤ)
  ids_of [] = ok []
  ids_of (item ∷ items) =
      then_id (json.as_int item) (λ id. then_id (ids_of items) (λ ids. ok (id ∷ ids)))

  service_ids : Option Json → Result (List ℤ)
  unfolding ids_of
  service_ids none = ok []
  service_ids (some arr) = then_id (json.as_items arr) ids_of

  unfoldable pub put_resource_services_route : Request Json → Exec Catalog Reply
  unfolding field service_ids
  put_resource_services_route req =
      try_catch
        (with_id req "id" λ resource_id. do
          ids ← from_result (service_ids (field req "service_ids"))
          set_services_for_resource resource_id ids
          reply status_ok (message "Artist services updated"))
        fail_silently

  unfoldable pub get_resources_route : Exec Catalog Reply
  get_resources_route =
      try_catch (do rows ← get_all_resources; reply status_ok (payload (resources rows)))
        fail_silently

  unfoldable pub post_resource_route : Request Json → Exec Catalog Reply
  unfolding text_or_empty
  post_resource_route req =
      try_catch
        (if not (has_fields req.body ("name" ∷ []))
          then reply bad_request (message "name is required")
          else do
            name ← from_result (text_or_empty json req.body "name")
            id ← add_resource name
            reply created (payload (resource_created id)))
        fail_silently

  unfoldable pub put_resource_route : Request Json → Exec Catalog Reply
  put_resource_route req =
      try_catch
        (with_id req "id" λ id. do
          update_resource units json id req.body
          reply status_ok (message "Resource updated"))
        fail_silently

  unfoldable pub delete_resource_route : Request Json → Exec Catalog Reply
  delete_resource_route req =
      try_catch
        (with_id req "id" λ id. do delete_resource id; reply status_ok (message "Resource deleted"))
        fail_silently
