-- ===== src/Crypt/Sha256/Tests.antt =====
-- Runs of `sha256` on published test vectors.
use Prim.Native.Char.{code}
use lisa_lashes_demo.Base.{ℕ, String, List, [], ◌∷◌, ◌≡◌, refl, replicate}
use lisa_lashes_demo.Crypt.Sha256.{sha256}
use lisa_lashes_demo.Crypt.Sha256.Words.{compress}

abbrev codes : String → List ℕ
codes String.[] = []
codes (String.◌∷◌ c s) = code c ∷ codes s

sha256-abc :
    sha256 (replicate 64 7) (codes "abc")
    ≡ codes "ba7816bf8f01cfea414140de5dae2223b00361a396177a9cb410ff61f20015ad"
unfolding sha256 compress
sha256-abc = refl

sha256-two_blocks :
    sha256 (replicate 64 7) (codes "abcdbcdecdefdefgefghfghighijhijkijkljklmklmnlmnomnopnopq")
    ≡ codes "248d6a61d20638b8e5c026930c3e6039a33ce45964ff2167f6ecedd419db06c1"
unfolding sha256 compress
sha256-two_blocks = refl
