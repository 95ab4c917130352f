-- ===== src/Salon/Tables.antt =====
-- The SQL of back/services/salon_service.cpp and resource_service.cpp. `offered` holds the rows of
-- resource_services, `booked` the resource and the service that each row of bookings refers to.
use mathlib.Core.Option
use lisa_lashes_demo.Base.{
  ℕ, ◌+◌, Bool, true, false, not, ◌&&◌, ◌||◌, Option, none, some, List, [], ◌∷◌, ◌++◌,
  if◌then◌else◌, select, Done,
}
use lisa_lashes_demo.Base.Int.{ℤ, pos, int_eq, ltb_ℤ}
use lisa_lashes_demo.Base.Text.{Text, is_empty}
use lisa_lashes_demo.Db.Casts.{Casts}

-- What the server makes of an INTERVAL, in seconds, and of a BOOLEAN.
pub record Units : Type 0 where
  pub to_interval : Text → Option ℕ
  pub interval_text : ℕ → Text
  pub to_boolean : Text → Option Bool

pub record ServiceRow : Type 0 where
  pub id : ℤ
  pub name : Text
  pub duration : ℕ
  pub price : ℤ
  pub active : Bool

pub record ResourceRow : Type 0 where
  pub id : ℤ
  pub name : Text
  pub active : Bool

pub record Catalog : Type 0 where
  pub resources : List ResourceRow
  pub services : List ServiceRow
  pub offered : List (ℤ × ℤ)
  pub booked : List (ℤ × Option ℤ)
  pub next_resource : ℕ
  pub next_service : ℕ

-- The rows are listed in the order of their ids.
unfoldable pub select_services : Catalog → Option (List ServiceRow × Catalog)
select_services c = some (c.services, c)

unfoldable pub select_resources : Catalog → Option (List ResourceRow × Catalog)
select_resources c = some (c.resources, c)

unfoldable pub find_service : ℤ → List ServiceRow → Option ServiceRow
find_service id [] = none
find_service id (s ∷ rest) = if int_eq s.id id then some s else find_service id rest

unfoldable pub known_resource : ℤ → List ResourceRow → Bool
known_resource id [] = false
known_resource id (r ∷ rest) = int_eq r.id id || known_resource id rest

-- The row of resource_services joined with its service, which exists.
abbrev joined : ℤ → Option ServiceRow → List (ℤ × ℤ × Text) → List (ℤ × ℤ × Text)
joined resource_id none rows = rows
joined resource_id (some s) rows = (resource_id, s.id, s.name) ∷ rows

unfoldable pub join : List ServiceRow → List (ℤ × ℤ) → List (ℤ × ℤ × Text)
unfolding find_service
join services [] = []
join services (p ∷ rest) = joined p.0 (find_service p.1 services) (join services rest)

abbrev before : ℤ × ℤ × Text → ℤ × ℤ × Text → Bool
before a b = ltb_ℤ a.0 b.0 || (int_eq a.0 b.0 && ltb_ℤ a.1 b.1)

insert_sorted : ℤ × ℤ × Text → List (ℤ × ℤ × Text) → List (ℤ × ℤ × Text)
insert_sorted a [] = a ∷ []
insert_sorted a (b ∷ rest) =
    let later = insert_sorted a rest in if before b a then b ∷ later else a ∷ b ∷ rest

sorted : List (ℤ × ℤ × Text) → List (ℤ × ℤ × Text)
unfolding insert_sorted
sorted [] = []
sorted (a ∷ rest) = insert_sorted a (sorted rest)

-- SELECT rs.resource_id, ss.id, ss.name FROM resource_services rs JOIN salon_services ss ...
unfoldable pub select_assignments : Catalog → Option (List (ℤ × ℤ × Text) × Catalog)
unfolding sorted join
select_assignments c = some (sorted (join c.services c.offered), c)

-- INSERT INTO salon_services ... VALUES ($1, $2, $3, true), of an INTERVAL and a NUMERIC
abbrev add_service_row : Text → Option ℕ → Option ℤ → Catalog → Option (Done × Catalog)
add_service_row name none price c = none
add_service_row name (some d) none c = none
add_service_row name (some d) (some p) c = some (
  tt,
  record c {
    services =
        c.services
        ++ record { id = pos c.next_service; name = name; duration = d; price = p; active = true }
          ∷ [];
    next_service = c.next_service + 1;
  },
)

unfoldable pub insert_service :
    Units → Casts → Text → Text → Text → Catalog → Option (Done × Catalog)
insert_service units casts name duration price c =
    add_service_row name (units.to_interval duration) (casts.to_numeric price) c

-- UPDATE salon_services SET ... COALESCE(NULLIF($3, ''), duration) ...: NULLIF of an untyped
-- parameter and a literal is a text, which COALESCE refuses beside an INTERVAL, whatever the values.
unfoldable pub update_service_row :
    ℤ → Text → Text → Text → Text → Catalog → Option (Done × Catalog)
update_service_row id name duration price active c = none

unfoldable pub is_booked : ℤ → List (ℤ × Option ℤ) → Bool
is_booked id [] = false
is_booked id (b ∷ rest) = elim b.1 [
  | none ↦ is_booked id rest
  | some s ↦ int_eq s id || is_booked id rest
]

-- DELETE FROM salon_services WHERE id = $1::integer; a booking of the service forbids it.
unfoldable pub delete_service_row : ℤ → Catalog → Option (Done × Catalog)
unfolding is_booked
delete_service_row id c =
    if is_booked id c.booked
    then none
    else some (
      tt,
      record c {
        services = select (λ s. not (int_eq s.id id)) c.services;
        offered = select (λ p. not (int_eq p.1 id)) c.offered;
      },
    )

-- DELETE FROM resource_services WHERE resource_id = $1::integer
unfoldable pub delete_offers : ℤ → Catalog → Option (Done × Catalog)
delete_offers id c = some (tt, record c { offered = select (λ p. not (int_eq p.0 id)) c.offered })

unfoldable pub offers : ℤ → ℤ → List (ℤ × ℤ) → Bool
offers resource_id service_id [] = false
offers resource_id service_id (p ∷ rest) =
    (int_eq p.0 resource_id && int_eq p.1 service_id) || offers resource_id service_id rest

abbrev known_service : Option ServiceRow → Bool
known_service none = false
known_service (some s) = true

-- INSERT INTO resource_services ... ON CONFLICT DO NOTHING
unfoldable pub insert_offer : ℤ → ℤ → Catalog → Option (Done × Catalog)
unfolding offers known_resource find_service
insert_offer resource_id service_id c =
    if offers resource_id service_id c.offered
    then some (tt, c)
    else if known_resource resource_id c.resources
        && known_service (find_service service_id c.services)
    then some (tt, record c { offered = c.offered ++ (resource_id, service_id) ∷ [] })
    else none

-- INSERT INTO resources (name, active) VALUES ($1, true) RETURNING id
unfoldable pub insert_resource : Text → Catalog → Option (ℤ × Catalog)
insert_resource name c = some (
  pos c.next_resource,
  record c {
    resources = c.resources ++ record { id = pos c.next_resource; name = name; active = true } ∷ [];
    next_resource = c.next_resource + 1;
  },
)

abbrev or_old : Text → Text → Text
or_old new old = if is_empty new then old else new

-- CASE WHEN $3 != '' THEN $3::boolean ELSE active END
abbrev changed_active : Units → Text → Bool → Option Bool
changed_active units text old = if is_empty text then some old else units.to_boolean text

abbrev changed_resource : Text → ResourceRow → Option Bool → Option ResourceRow
changed_resource name r none = none
changed_resource name r (some active) =
    some (record r { name = or_old name r.name; active = active })

unfoldable pub change_resources :
    Units → ℤ → Text → Text → List ResourceRow → Option (List ResourceRow)
change_resources units id name active [] = some []
change_resources units id name active (r ∷ rest) =
    let later = change_resources units id name active rest in
    elim (if int_eq r.id id
      then changed_resource name r (changed_active units active r.active)
      else some r) [ none ↦ none | some r' ↦ Option.map (λ rows. r' ∷ rows) later ]

-- UPDATE resources SET ... WHERE id = $1
unfoldable pub update_resource_row : Units → ℤ → Text → Text → Catalog → Option (Done × Catalog)
unfolding change_resources
update_resource_row units id name active c =
    Option.map (λ rows. (tt, record c { resources = rows }))
      (change_resources units id name active c.resources)

-- DELETE FROM resources WHERE id = $1::integer; its offers and bookings go with it.
unfoldable pub delete_resource_row : ℤ → Catalog → Option (Done × Catalog)
delete_resource_row id c = some (
  tt,
  record c {
    resources = select (λ r. not (int_eq r.id id)) c.resources;
    offered = select (λ p. not (int_eq p.0 id)) c.offered;
    booked = select (λ b. not (int_eq b.0 id)) c.booked;
  },
)
