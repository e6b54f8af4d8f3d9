-- ===== src/Common/Words.antt =====
-- Text as its UTF-16 code units, for what JavaScript's `trim` does to it.
use ai_cinema_be.Common.{
  ℕ, Bool, true, false, ◌&&◌, ◌||◌, List, [], ◌∷◌, if◌then◌else◌, leb, ◌==◌, Option, none, some,
}

abbrev pub Words : Type 0
Words = List ℕ

-- White space and line ends of ECMAScript.
unfoldable pub is_space : ℕ → Bool
is_space c =
    (leb 9 c && leb c 13)
    || (c == 32
        || (c == 160
            || (c == 5760
                || ((leb 8192 c && leb c 8202)
                    || (c == 8232
                        || (c == 8233
                            || (c == 8239 || (c == 8287 || (c == 12288 || c == 65279)))))))))

unfoldable pub trim_start : Words → Words
trim_start [] = []
trim_start (c ∷ cs) = let rest = trim_start cs in if is_space c then rest else c ∷ cs

-- Drops a character at the end only where nothing but white space follows.
unfoldable pub trim_end : Words → Words
trim_end [] = []
trim_end (c ∷ cs) = ends c (trim_end cs)
  where
    ends : ℕ → Words → Words
    ends c [] = if is_space c then [] else c ∷ []
    ends c (d ∷ ds) = c ∷ d ∷ ds

unfoldable pub trim : Words → Words
trim cs = trim_end (trim_start cs)

abbrev pub is_empty : Words → Bool
is_empty [] = true
is_empty (c ∷ cs) = false

-- `!reason?.trim()`
unfoldable pub is_blank : Option Words → Bool
is_blank none = true
is_blank (some cs) = is_empty (trim cs)
