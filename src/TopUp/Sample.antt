-- ===== src/TopUp/Sample.antt =====
-- A JavaScript runtime for the tests: it reads no text as a number, an object or a date.
use ai_cinema_be.Common.{ap, ◌∙◌, sym, ℕ, zero, suc, ◌≡◌, refl, none, String}
use ai_cinema_be.TopUp.Callback.{Runtime}

-- One stroke for each unit: a text that no other number has.
abbrev pub text_of_nat : ℕ → String
text_of_nat zero = ""
text_of_nat (suc n) = String.◌∷◌ "1" (text_of_nat n)

strokes : String → ℕ
strokes String.[] = 0
strokes (String.◌∷◌ c s) = suc (strokes s)

strokes-text : (n : ℕ) → strokes (text_of_nat n) ≡ n
unfolding strokes
strokes-text zero = refl
strokes-text (suc n) = ap suc (strokes-text n)

pub text_of_nat-inj : (i j : ℕ) → text_of_nat i ≡ text_of_nat j → i ≡ j
text_of_nat-inj i j h = sym (strokes-text i) ∙ ap strokes h ∙ strokes-text j

abbrev pub runtime : Runtime
runtime = record {
  integer_of = λ s. none;
  json_of_base64 = λ s. none;
  date_of = λ s. none;
  text_of_id = text_of_nat;
  text_of_id-inj = text_of_nat-inj;
}
