-- ===== src/TopUp/Gateway/Crypto.antt =====
-- What the gateways' code calls of Node and JavaScript: the two keyed hashes, the encoding of URLs,
-- the texts of numbers and dates, and `fetch`; and text helpers on top of them.
use Prim.Native.String.{◌++◌}
use ai_cinema_be.Common.{
  ℕ, Bool, true, false, not, ◌&&◌, String, List, [], ◌∷◌, str_eq, if◌then◌else◌, ltb, ◌==◌,
}
use ai_cinema_be.Common.Int.{ℤ}
use ai_cinema_be.Common.Text.{codes}
use ai_cinema_be.Common.Lists.{length}
use ai_cinema_be.TopUp.Callback.{Raw}

-- What `fetch` comes back with: no answer in time, an HTTP error, or the JSON of the answer.
pub data Fetched : Type 0 where
  unreachable : Fetched
  refused : ℕ → Fetched
  answered : Raw → Fetched

pub record Platform : Type 0 where
  pub hmac_sha256_hex : String → String → String
  pub hmac_sha512_hex : String → String → String
  pub encode_uri_component : String → String
  pub text_of_integer : ℤ → String
  pub base64_json_of_order : ℕ → String
  pub post : String → Raw → Fetched

-- `secureCompare`: an empty text is refused. Two texts of one length whose UTF-8 forms differ in
-- length make `timingSafeEqual` throw; the signature that is expected is a hash in ASCII, so that the
-- other text is a wrong one, and the answer here is `false`.
unfoldable pub secure_compare : String → String → Bool
secure_compare expected actual =
    not (str_eq actual "")
    && (length (codes expected) == length (codes actual) && str_eq expected actual)

-- `join`
unfoldable pub join : String → List String → String
join sep [] = ""
join sep (s ∷ []) = s
join sep (s ∷ t ∷ ss) = s ++ sep ++ join sep (t ∷ ss)

-- `<` on texts, by their code units (ASCII, as the names of the fields are).
unfoldable pub is_below : List ℕ → List ℕ → Bool
is_below cs [] = false
is_below [] (d ∷ ds) = true
is_below (c ∷ cs) (d ∷ ds) = if ltb c d then true else if ltb d c then false else is_below cs ds
