-- ===== src/Tests/Static.antt =====
-- A run of the theorem on StaticServe.
use lisa_lashes_demo.Base.{
  ℕ, ◌+◌, ◌*◌, ◌-◌, ◌≡◌, refl, ap, false, none, some, [], ◌∷◌, ◌++◌, if◌then◌else◌, ◌==◌, leb,
  arith,
}
use lisa_lashes_demo.Base.Text.{Text, bytes, text_eq}
use lisa_lashes_demo.Http.{lookup}
use lisa_lashes_demo.Expresso.Libraries.{Brewtils, Files}
use lisa_lashes_demo.Expresso.Response.{Response, head}
use lisa_lashes_demo.Expresso.Response.Delivery.{whole_file}
use lisa_lashes_demo.Expresso.Router.{get_method}
use lisa_lashes_demo.Expresso.Server.{Free, parsed}
use lisa_lashes_demo.Expresso.Middlewares.StaticServe.{static_serve_use}
use lisa_lashes_demo.Expresso.Middlewares.StaticServe.Absolute.{Paths, static_serve_use_absolute}
use lisa_lashes_demo.Tests.Data.{lib, plain_text, fresh, fresh-IsOpen}

abbrev hex_value : ℕ → ℕ
hex_value c = if leb 97 c then c - 87 else if leb 65 c then c - 55 else c - 48

abbrev unescaped : ℕ → ℕ
unescaped c = if c == b'+' then 32 else c

abbrev decode : Text → Text
decode [] = []
decode (c ∷ []) = unescaped c ∷ []
decode (c ∷ d ∷ []) = unescaped c ∷ unescaped d ∷ []
decode (c ∷ d ∷ e ∷ t) =
    let skipped = decode t in
    let next = decode (d ∷ e ∷ t) in
    if c == b'%' then (16 * hex_value d + hex_value e) ∷ skipped else unescaped c ∷ next

abbrev join : Text → Text → Text
join directory [] = directory
join directory (c ∷ path) = if c == b'/' then c ∷ path else directory ++ b'/' ∷ c ∷ path

abbrev paths : Brewtils
paths = record lib { decode = decode; join_path = join }

decode_plain : (t : Text) → Free b'%' t → Free b'+' t → decode t ≡ t
decode_plain [] f g = refl
decode_plain (c ∷ []) f g = rw g.0 refl
decode_plain (c ∷ d ∷ []) f g = rw (g.0, g.1.0) refl
decode_plain (c ∷ d ∷ e ∷ t) f g = rw (f.0, g.0, decode_plain (d ∷ e ∷ t) f.1 g.1) refl

paths-Paths : Paths paths
paths-Paths = record {
  absolute = λ directory path. refl;
  escaped = λ path f g. ap (◌∷◌ b'/') (decode_plain path f g);
  one_part = refl;
}

abbrev secret : Files
secret = record {
  file = λ p. if text_eq p (bytes "/etc/key") then some (bytes "body") else none;
  directory = λ p. none;
  crc = λ t. t;
}

static_serve_use_absolute_example :
    (served : Response Text) × (static_serve_use paths plain_text secret
        (bytes "./front")
        false
        get_method
        (bytes "%2fetc/key")
        (bytes "%2f" ++ bytes "etc/key")
        []
        fresh
      ≡ parsed (false, served))
    × (served.socket.sent
        ≡ fresh.socket.sent
          ++ (head paths plain_text
                (whole_file paths plain_text secret (bytes "/etc/key") (bytes "body") fresh)
              ++ bytes "body"))
unfolding text_eq lookup
static_serve_use_absolute_example =
    static_serve_use_absolute paths plain_text secret (bytes "./front") false (bytes "%2fetc/key")
      (bytes "etc/key") (bytes "body") [] fresh paths-Paths (ground arith) (ground arith)
      fresh-IsOpen refl refl
