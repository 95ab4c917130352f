-- ===== src/Salon.antt =====
-- back/services/salon_service.cpp and resource_service.cpp: the methods of SalonServiceRepository and
-- of ResourceRepository.
pub mod Tables
pub mod Offers
use lisa_lashes_demo.Base.{Bool, List, [], ◌∷◌, ◌++◌, map, if◌then◌else◌, Done}
use lisa_lashes_demo.Base.Int.{ℤ, int_eq}
use lisa_lashes_demo.Base.Text.{Text}
use lisa_lashes_demo.Db.Casts.{Casts}
use lisa_lashes_demo.Db.Exec.{Exec, pure, from_result, statement, ◌>>=◌, ◌>>◌}
use lisa_lashes_demo.Http.{JsonLibrary, text_or_empty}
use Tables.{
  Units, ServiceRow, ResourceRow, Catalog, select_services, select_resources, select_assignments,
  insert_service, update_service_row, delete_service_row, delete_offers, insert_offer,
  insert_resource, update_resource_row, delete_resource_row,
}

-- struct SalonService
pub record SalonService : Type 0 where
  pub id : ℤ
  pub name : Text
  pub duration : Text
  pub price : Text
  pub active : Bool

-- struct Resource, with the id and the name of each of its services
pub record Resource : Type 0 where
  pub id : ℤ
  pub name : Text
  pub active : Bool
  pub services : List (ℤ × Text)

unfoldable pub get_all_services : Units → Casts → Exec Catalog (List SalonService)
get_all_services units casts = do
  rows ← statement select_services
  pure (
      map
        (λ (s : ServiceRow). record {
          id = s.id;
          name = s.name;
          duration = units.interval_text s.duration;
          price = casts.numeric_text s.price;
          active = s.active;
        })
        rows)

unfoldable pub add_service : Units → Casts → Text → Text → Text → Exec Catalog Done
add_service units casts name duration price =
    statement (insert_service units casts name duration price)

unfoldable pub update_service :
    {Json : Type 0} → JsonLibrary Json → ℤ → List (Text × Json) → Exec Catalog Done
unfolding text_or_empty
update_service json id obj = do
  name ← from_result (text_or_empty json obj "name")
  duration ← from_result (text_or_empty json obj "duration")
  price ← from_result (text_or_empty json obj "price")
  active ← from_result (text_or_empty json obj "active")
  statement (update_service_row id name duration price active)

unfoldable pub delete_service : ℤ → Exec Catalog Done
delete_service id = statement (delete_service_row id)

-- The loop over the ids.
insert_offers : ℤ → List ℤ → Exec Catalog Done
insert_offers resource_id [] = pure tt
insert_offers resource_id (service_id ∷ rest) = do
  statement (insert_offer resource_id service_id)
  insert_offers resource_id rest

pub set_services_for_resource : ℤ → List ℤ → Exec Catalog Done
unfolding insert_offers
set_services_for_resource resource_id service_ids = do
  statement (delete_offers resource_id)
  insert_offers resource_id service_ids

abbrev without_services : ResourceRow → Resource
without_services r = record { id = r.id; name = r.name; active = r.active; services = [] }

-- The loop over the resources, which stops at the first with the id.
add_to_resource : ℤ → ℤ → Text → List Resource → List Resource
add_to_resource rid svc_id svc_name [] = []
add_to_resource rid svc_id svc_name (r ∷ rest) =
    let later = add_to_resource rid svc_id svc_name rest in
    if int_eq r.id rid
    then record r { services = r.services ++ (svc_id, svc_name) ∷ [] } ∷ rest
    else r ∷ later

distribute : List (ℤ × ℤ × Text) → List Resource → List Resource
unfolding add_to_resource
distribute [] resources = resources
distribute (a ∷ rest) resources = distribute rest (add_to_resource a.0 a.1 a.2 resources)

unfoldable pub get_all_resources : Exec Catalog (List Resource)
unfolding distribute
get_all_resources = do
  rows ← statement select_resources
  assignments ← statement select_assignments
  pure (distribute assignments (map without_services rows))

unfoldable pub add_resource : Text → Exec Catalog ℤ
add_resource name = statement (insert_resource name)

unfoldable pub update_resource :
    {Json : Type 0} → Units → JsonLibrary Json → ℤ → List (Text × Json) → Exec Catalog Done
unfolding text_or_empty
update_resource units json id obj = do
  name ← from_result (text_or_empty json obj "name")
  active ← from_result (text_or_empty json obj "active")
  statement (update_resource_row units id name active)

unfoldable pub delete_resource : ℤ → Exec Catalog Done
delete_resource id = statement (delete_resource_row id)
