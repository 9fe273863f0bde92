-- ===== src/Text.antt =====
-- Python's `str` methods that the program calls, over the code points of a text.
use Prim.Native.Char.{Char, code}
use hass_geofence_journal.Prelude.{
  ℕ, ◌+◌, ◌≡◌, refl, String, Bool, true, false, ◌&&◌, ◌||◌, List, [], ◌∷◌, arith, leb, ◌==◌,
  if◌then◌else◌,
}

abbrev pub codes : String → List ℕ
codes String.[] = []
codes (String.◌∷◌ c s) = code c ∷ codes s

abbrev pub eq_codes : List ℕ → List ℕ → Bool
eq_codes [] [] = true
eq_codes (x ∷ xs) (y ∷ ys) = (x == y) && eq_codes xs ys
eq_codes _ _ = false

-- `str.isspace` of one character.
is_space : ℕ → Bool
is_space c =
    (leb 9 c && leb c 13)
    || (leb 28 c && leb c 32)
    || (c == 133)
    || (c == 160)
    || (c == 5760)
    || (leb 8192 c && leb c 8202)
    || (c == 8232)
    || (c == 8233)
    || (c == 8239)
    || (c == 8287)
    || (c == 12288)

unfoldable pub lstrip : List ℕ → List ℕ
unfolding is_space
lstrip [] = []
lstrip (c ∷ s) = let rest = lstrip s in if is_space c then rest else c ∷ s

-- `c`, put before a text without trailing space.
keep_before : ℕ → List ℕ → List ℕ
unfolding is_space
keep_before c [] = if is_space c then [] else c ∷ []
keep_before c (d ∷ s) = c ∷ d ∷ s

unfoldable pub rstrip : List ℕ → List ℕ
unfolding keep_before
rstrip [] = []
rstrip (c ∷ s) = keep_before c (rstrip s)

unfoldable pub strip : List ℕ → List ℕ
unfolding lstrip rstrip
strip s = lstrip (rstrip s)

-- `str.lower`, exact where the result is compared with an ASCII text: the letters A to Z and the
-- Kelvin sign are the only characters whose lower case is one ASCII letter.
lower_code : ℕ → ℕ
lower_code c = if leb 65 c && leb c 90 then c + 32 else if c == 8490 then 107 else c

unfoldable pub lower : List ℕ → List ℕ
unfolding lower_code
lower [] = []
lower (c ∷ s) = lower_code c ∷ lower s

pub eq_codes_refl : (s : List ℕ) → eq_codes s s ≡ true
eq_codes_refl [] = ground arith
eq_codes_refl (x ∷ s) = ground (arith, eq_codes_refl s)

pub eq_codes→eq : (a b : List ℕ) → eq_codes a b ≡ true → a ≡ b
eq_codes→eq [] [] h = refl
eq_codes→eq [] (y ∷ ys) h = cc
eq_codes→eq (x ∷ xs) [] h = cc
eq_codes→eq (x ∷ xs) (y ∷ ys) h = ground (arith, eq_codes→eq xs ys)

pub eq_codes_sym : (a b : List ℕ) → eq_codes a b ≡ eq_codes b a
eq_codes_sym [] [] = refl
eq_codes_sym [] (y ∷ ys) = refl
eq_codes_sym (x ∷ xs) [] = refl
eq_codes_sym (x ∷ xs) (y ∷ ys) = ground (arith, eq_codes_sym xs ys)

-- `str.strip` of a text as a text.
unfoldable pub lstrip_text : String → String
unfolding is_space
lstrip_text String.[] = String.[]
lstrip_text (String.◌∷◌ c s) =
    let rest = lstrip_text s in if is_space (code c) then rest else String.◌∷◌ c s

keep_before_text : Char → String → String
unfolding is_space
keep_before_text c String.[] = if is_space (code c) then String.[] else String.◌∷◌ c String.[]
keep_before_text c (String.◌∷◌ d s) = String.◌∷◌ c (String.◌∷◌ d s)

unfoldable pub rstrip_text : String → String
unfolding keep_before_text
rstrip_text String.[] = String.[]
rstrip_text (String.◌∷◌ c s) = keep_before_text c (rstrip_text s)

unfoldable pub strip_text : String → String
unfolding lstrip_text rstrip_text
strip_text s = lstrip_text (rstrip_text s)
