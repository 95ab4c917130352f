-- ===== src/Expresso/Middlewares/Origins.antt =====
-- Which requests Cors::use lets through.
use lisa_lashes_demo.Base.{
  ℕ, zero, suc, ◌≡◌, ◌⊎◌, ◌||◌, refl, ap, sym, subst, arith, get_elem?, some, ◌∙◌, Bool, true,
  false, String, List, [], ◌∷◌, All, Bool-cases, inl, inr,
}
use lisa_lashes_demo.Base.Text.{Text, bytes, is_empty, text_eq, text_eq_sound, text_eq_refl}
use lisa_lashes_demo.Expresso.Libraries.{Brewtils}
use lisa_lashes_demo.Expresso.Response.{Response, set, get, send, status}
use lisa_lashes_demo.Expresso.Response.Wire.{get-set, get-set_of_ne}
use lisa_lashes_demo.Expresso.Middlewares.Cors.{Cors, cors_use, is_listed}

-- The headers that `use` sets.
abbrev pub cors_names : List String
cors_names =
    "access-control-allow-origin" ∷ "access-control-allow-credentials"
    ∷ "access-control-allow-headers" ∷ "content-type" ∷ []

-- One of the patterns is the origin behind a dot, or matches it.
abbrev pub Allowed : (Text → Text → Bool) → Text → List Text → Type 0
Allowed regex_match origin patterns =
    (i : ℕ) × (pattern : Text) × (get_elem? patterns i ≡ some pattern)
    × ((pattern ≡ b'.' ∷ origin) ⊎ (regex_match pattern origin ≡ true))

clash : true ≡ false → ⊥
clash h = ground arith

either : (a b : Bool) → a || b ≡ true → (a ≡ true) ⊎ (b ≡ true)
either true b h = inl refl
either false b h = inr h

module _ {Cookie : Type 0} (lib : Brewtils) (serialize : Cookie → Text)
    (lower : All (λ name. lib.lower (bytes name) ≡ bytes name) cors_names) where
  differ :
      (name : String)
      → lib.lower (bytes name) ≡ bytes name
      → text_eq (bytes name) (bytes "access-control-allow-origin") ≡ false
      → text_eq (lib.lower (bytes name)) (lib.lower (bytes "access-control-allow-origin")) ≡ false
  differ name h e = rw (h, lower.0) e

  status-set :
      (name : String) (value : Text) (r : Response Cookie)
      → (set lib serialize name value r).status_code ≡ r.status_code
  unfolding set
  status-set name value r = refl

  other_header :
      (name : String) (value : Text) (r : Response Cookie)
      → lib.lower (bytes name) ≡ bytes name
      → text_eq (bytes name) (bytes "access-control-allow-origin") ≡ false
      → get lib serialize "access-control-allow-origin" (set lib serialize name value r)
        ≡ get lib serialize "access-control-allow-origin" r
  other_header name value r h e =
      get-set_of_ne lib serialize name "access-control-allow-origin" value r (differ name h e)

  get-forbidden :
      (text : Text) (r : Response Cookie)
      → get lib serialize "access-control-allow-origin" (
          send lib serialize text
            (status 403 (set lib serialize "access-control-allow-origin" (bytes "null") r)))
        ≡ bytes "null"
  unfolding send status get text_eq
  get-forbidden text r =
      other_header "content-type" (bytes "text/plain")
        (set lib serialize "access-control-allow-origin" (bytes "null") r) lower.1.1.1.0 refl
      ∙ get-set lib serialize "access-control-allow-origin" (bytes "null") r

  status-forbidden :
      (text : Text) (r : Response Cookie)
      → (send lib serialize text (status 403 r)).status_code ≡ 403
  unfolding send status set
  status-forbidden text r = refl

  is_listed-Allowed :
      (regex_match : Text → Text → Bool) (origin : Text) (patterns : List Text)
      → is_listed lib serialize regex_match origin patterns ≡ true
      → Allowed regex_match origin patterns
  unfolding is_listed
  is_listed-Allowed regex_match origin [] h = absurd (ground arith)
  is_listed-Allowed regex_match origin (o ∷ rest) h =
      elim (Bool-cases (text_eq o (b'.' ∷ origin) || regex_match o origin)) [
        | inl found ↦ elim (either (text_eq o (b'.' ∷ origin)) (regex_match o origin) found) [
          | inl exact ↦ (0, o, refl, inl (text_eq_sound o (b'.' ∷ origin) exact))
          | inr matches ↦ (0, o, refl, inr matches)
        ]
        | inr other ↦
            let later = is_listed-Allowed regex_match origin rest (ground arith) in
            (suc later.0, later.1, later.2, later.3)
      ]

  Allowed-is_listed :
      (regex_match : Text → Text → Bool) (origin : Text) (patterns : List Text) (i : ℕ)
      (pattern : Text)
      → get_elem? patterns i ≡ some pattern
      → text_eq pattern (b'.' ∷ origin) || regex_match pattern origin ≡ true
      → is_listed lib serialize regex_match origin patterns ≡ true
  unfolding is_listed
  Allowed-is_listed regex_match origin [] i pattern e h = absurd (ground arith)
  Allowed-is_listed regex_match origin (o ∷ rest) zero pattern e h =
      let same : o ≡ pattern = ground arith in
      let found : text_eq o (b'.' ∷ origin) || regex_match o origin ≡ true =
        subst (λ (t : Text). text_eq t (b'.' ∷ origin) || regex_match t origin ≡ true) (sym same)
          h in
      rw (is_listed, found) refl
  Allowed-is_listed regex_match origin (o ∷ rest) (suc i) pattern e h =
      let later = Allowed-is_listed regex_match origin rest i pattern e h in ground arith

  fits :
      (regex_match : Text → Text → Bool) (origin pattern : Text)
      → ((pattern ≡ b'.' ∷ origin) ⊎ (regex_match pattern origin ≡ true))
      → text_eq pattern (b'.' ∷ origin) || regex_match pattern origin ≡ true
  fits regex_match origin pattern (inl exact) =
      ap (λ (b : Bool). b || regex_match pattern origin)
        (ap (λ (t : Text). text_eq t (b'.' ∷ origin)) exact ∙ text_eq_refl (b'.' ∷ origin))
  fits regex_match origin pattern (inr matches) = ground arith

  unlisted :
      (regex_match : Text → Text → Bool) (origin : Text) (patterns : List Text)
      → is_listed lib serialize regex_match origin patterns ≡ false
      → Allowed regex_match origin patterns
      → ⊥
  unlisted regex_match origin patterns h (i, pattern, at_i, reason) = clash (
      sym (
        Allowed-is_listed regex_match origin patterns i pattern at_i
          (fits regex_match origin pattern reason))
      ∙ h)

  -- When not all origins are allowed, a request with an origin is let through if and only if one of
  -- the patterns is the origin behind a dot or matches it. The answer then names that origin and keeps
  -- its status; otherwise it names "null" and has the status 403.
  pub cors_use-Allowed :
      (regex_match : Text → Text → Bool) (cors : Cors) (origin : Text) (r : Response Cookie)
      → cors.allow_all_origins ≡ false
      → is_empty origin ≡ false
      → let answer = cors_use lib serialize regex_match cors origin r in
        let named = get lib serialize "access-control-allow-origin" answer.1 in
        (Allowed regex_match origin cors.origins
          × (answer.0 ≡ true)
          × (named ≡ origin)
          × (answer.1.status_code ≡ r.status_code))
        ⊎ ((Allowed regex_match origin cors.origins → ⊥)
            × (answer.0 ≡ false)
            × (named ≡ bytes "null")
            × (answer.1.status_code ≡ 403))
  unfolding cors_use text_eq
  cors_use-Allowed regex_match cors origin r some_only given =
      let answer = cors_use lib serialize regex_match cors origin r in
      let named = get lib serialize "access-control-allow-origin" answer.1 in
      elim (Bool-cases (is_listed lib serialize regex_match origin cors.origins)) [
        | inl e ↦
            let passed : (answer.0 ≡ true)
                × (named ≡ origin)
                × (answer.1.status_code ≡ r.status_code) =
              rw (some_only, given, e)
                (
                  refl,
                  other_header _ _ _ lower.1.1.0 refl
                      ∙ other_header _ _ _ lower.1.0 refl
                      ∙ get-set lib serialize _ origin r,
                  status-set _ _ _ ∙ status-set _ _ _ ∙ status-set _ origin r,
                ) in
            inl (is_listed-Allowed regex_match origin cors.origins e, passed.0, passed.1, passed.2)
        | inr e ↦
            let stopped : (answer.0 ≡ false)
                × (named ≡ bytes "null")
                × (answer.1.status_code ≡ 403) =
              rw (some_only, given, e) (refl, get-forbidden _ r, status-forbidden _ _) in
            inr (unlisted regex_match origin cors.origins e, stopped.0, stopped.1, stopped.2)
      ]
