-- ===== src/Shell/CString.antt =====
-- The strings of C, as the functions of <string.h> read them.
use iu_sysprog.Prelude.{
  ℕ, ◌≡◌, ◌≢◌, refl, Bool, List, [], ◌∷◌, ◌++◌, arith, ◌==◌, if◌then◌else◌, All, bytes_eq,
}

-- The bytes before the first NUL, which `strlen` counts.
abbrev pub c_string : List ℕ → List ℕ
c_string [] = []
c_string (c ∷ rest) = if c == 0 then [] else c ∷ c_string rest

-- `strcmp(a, b) == 0`
abbrev pub str_equal : List ℕ → List ℕ → Bool
str_equal a b = bytes_eq (c_string a) (c_string b)

-- The buffer that `strdup` allocates.
abbrev pub strdup : List ℕ → List ℕ
strdup s = c_string s ++ 0 ∷ []

abbrev pub IsText : List ℕ → Type 0
IsText = All (λ c. c ≢ 0)

pub c_string_text : (l rest : List ℕ) → IsText l → c_string (l ++ 0 ∷ rest) ≡ l
c_string_text [] rest h = refl
c_string_text (c ∷ l) rest h = ground (arith, c_string_text l rest h.1)

pub c_string_self : (l : List ℕ) → IsText l → c_string l ≡ l
c_string_self [] h = refl
c_string_self (c ∷ l) h = ground (arith, c_string_self l h.1)

pub c_string_twice : (l : List ℕ) → c_string (c_string l) ≡ c_string l
c_string_twice [] = refl
c_string_twice (c ∷ l) = ground (arith, c_string_twice l)
