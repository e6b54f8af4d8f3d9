-- ===== src/Common/Text.antt =====
-- Native texts, for the requests whose fields the services read as text: trimming, lower case and the
-- digits of a uuid.
use Prim.Native.Char.{Char, code}
use ai_cinema_be.Common.{
  zero, suc, ℕ, ◌+◌, ◌-◌, ◌*◌, Bool, true, false, ◌&&◌, Option, none, some, List, [], ◌∷◌, String,
  if◌then◌else◌, leb, ◌==◌,
}
use ai_cinema_be.Common.Words.{is_space}

abbrev pub is_empty_text : String → Bool
is_empty_text String.[] = true
is_empty_text (String.◌∷◌ c s) = false

unfoldable pub trim_left : String → String
unfolding is_space
trim_left String.[] = String.[]
trim_left (String.◌∷◌ c s) =
    let rest = trim_left s in if is_space (code c) then rest else String.◌∷◌ c s

abbrev ends : Char → String → String
ends c s = if is_space (code c) && is_empty_text s then String.[] else String.◌∷◌ c s

unfoldable pub trim_right : String → String
unfolding is_space
trim_right String.[] = String.[]
trim_right (String.◌∷◌ c s) = ends c (trim_right s)

unfoldable pub trim_text : String → String
unfolding trim_left trim_right
trim_text s = trim_right (trim_left s)

-- The code points of a text.
abbrev pub codes : String → List ℕ
codes String.[] = []
codes (String.◌∷◌ c s) = code c ∷ codes s

-- `toLowerCase` on the letters of ASCII.
abbrev pub lower_code : ℕ → ℕ
lower_code c = if leb b'A' c && leb c b'Z' then c + 32 else c

abbrev pub lower_codes : List ℕ → List ℕ
lower_codes [] = []
lower_codes (c ∷ cs) = lower_code c ∷ lower_codes cs

unfoldable pub same_codes : List ℕ → List ℕ → Bool
same_codes [] [] = true
same_codes (c ∷ cs) (d ∷ ds) = c == d && same_codes cs ds
same_codes _ _ = false

abbrev pub hex_digit : ℕ → Option ℕ
hex_digit c =
    if leb b'0' c && leb c b'9'
    then some (c - b'0')
    else if leb b'a' (lower_code c) && leb (lower_code c) b'f'
    then some (lower_code c - b'a' + 10)
    else none

-- So many hexadecimal digits after the number read so far; the number and what follows.
unfoldable pub hex_run : ℕ → ℕ → List ℕ → Option (ℕ × List ℕ)
hex_run zero n cs = some (n, cs)
hex_run (suc k) n [] = none
hex_run (suc k) n (c ∷ cs) = elim (hex_digit c) [ none ↦ none | some d ↦ hex_run k (n * 16 + d) cs ]

-- Groups of digits with a dash before each, to the end of the text.
unfoldable pub hex_groups : List ℕ → ℕ → List ℕ → Option ℕ
hex_groups [] n [] = some n
hex_groups [] n (c ∷ cs) = none
hex_groups (k ∷ ks) n [] = none
hex_groups (k ∷ ks) n (c ∷ cs) = elim (c == b'-') [
  | false ↦ none
  | true ↦ elim (hex_run k n cs) [ none ↦ none | some r ↦ hex_groups ks r.0 r.1 ]
]

-- `UUID_RE`, with the number that the digits write.
unfoldable pub uuid_number : String → Option ℕ
unfolding hex_run hex_groups
uuid_number s = elim (hex_run 8 0 (codes s)) [
  | none ↦ none
  | some r ↦ hex_groups (4 ∷ 4 ∷ 4 ∷ 12 ∷ []) r.0 r.1
]
