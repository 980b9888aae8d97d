-- ===== src/Common/Texts.antt =====
-- Text. Whole texts are native strings compared by `==`; a function that walks a text works on its
-- code points. Lower case is that of ASCII text.
use Prim.Native.Char.{code}
use Prim.Native.Nat.{ℕ, ◌+◌}
use Prim.Native.String.{String}
use mathlib.Core.Bool.{Bool, true, false, ◌&&◌, ◌||◌}
use mathlib.Core.List.{List, [], ◌∷◌, map}
use ci_failure_orchestrator.Common.Lists.{any, all}
use ci_failure_orchestrator.Common.Tests.{leb, ◌==◌, if◌then◌else◌}

-- The code points of a text. `String` has its own `[]` and `∷`.
abbrev pub codes : String → List ℕ
codes String.[] = []
codes (String.◌∷◌ c s) = code c ∷ codes s

-- `s + t`.
abbrev pub str_append : String → String → String
str_append String.[] t = t
str_append (String.◌∷◌ c s) t = String.◌∷◌ c (str_append s t)

abbrev pub Chars : Type 0
Chars = List ℕ

unfoldable pub same : Chars → Chars → Bool
same [] [] = true
same (a ∷ s) (b ∷ t) = a == b && same s t
same _ _ = false

-- `s.startswith(p)`.
unfoldable pub starts_with : Chars → Chars → Bool
starts_with [] s = true
starts_with (a ∷ p) [] = false
starts_with (a ∷ p) (b ∷ s) = a == b && starts_with p s

-- `p in s`.
unfoldable pub contains : Chars → Chars → Bool
unfolding starts_with
contains p [] = starts_with p []
contains p (b ∷ s) = starts_with p (b ∷ s) || contains p s

-- `s.endswith(p)`.
unfoldable pub ends_with : Chars → Chars → Bool
unfolding same
ends_with p [] = same p []
ends_with p (b ∷ s) = same p (b ∷ s) || ends_with p s

-- `s.lower()`.
unfoldable pub lower_char : ℕ → ℕ
lower_char c = if leb b'A' c && leb c b'Z' then c + 32 else c

unfoldable pub lower : Chars → Chars
unfolding lower_char
lower = map lower_char

-- `s.replace(a, b)` for single characters.
unfoldable pub replace_char : ℕ → ℕ → Chars → Chars
replace_char a b [] = []
replace_char a b (c ∷ s) = (if c == a then b else c) ∷ replace_char a b s

-- The text behind the last `/`, or the whole text: `s.rsplit("/", 1)[-1]`.
unfoldable pub after_last_slash : Chars → Chars
after_last_slash [] = []
after_last_slash (c ∷ s) = if any (λ x. x == b'/') (c ∷ s) then after_last_slash s else c ∷ s

-- `str.isspace` of one character.
unfoldable pub is_space : ℕ → Bool
is_space c =
    (leb 9 c && leb c 13)
    || (leb 28 c && leb c 32)
    || c == 0x85
    || c == 0xa0
    || c == 0x1680
    || (leb 0x2000 c && leb c 0x200a)
    || c == 0x2028
    || c == 0x2029
    || c == 0x202f
    || c == 0x205f
    || c == 0x3000

-- `not s.strip()`.
unfoldable pub is_blank : Chars → Bool
unfolding is_space
is_blank = all is_space
