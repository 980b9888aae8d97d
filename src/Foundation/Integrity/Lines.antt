-- ===== src/Foundation/Integrity/Lines.antt =====
-- The data of `parse_unified_diff` of foundation/verification_integrity.py and its tests on a line. A digit is an
-- ASCII digit.
use ci_failure_orchestrator.Common.{
  ℕ, ◌+◌, ◌-◌, ◌*◌, Bool, true, false, not, ◌&&◌, ◌||◌, List, [], ◌∷◌, ◌++◌, Option, none, some,
  all, length, leb, ◌==◌, if◌then◌else◌, Chars, codes, starts_with, is_space, drop,
}

pub data Marker : Type 0 where
  plus minus space : Marker

pub record FileDiff : Type 0 where
  pub path : Chars
  pub deleted : Bool
  pub renamed_from : Chars
  pub added : List Chars
  pub removed : List Chars
  pub lines : List (Marker × Chars)

abbrev pub new_file : Chars → FileDiff
new_file path = record {
  path = path;
  deleted = false;
  renamed_from = [];
  added = [];
  removed = [];
  lines = [];
}

-- The local variables of the loop. The files before the current one, which is the last.
pub record Parser : Type 0 where
  pub earlier : List FileDiff
  pub current : Option FileDiff
  pub in_hunk : Bool
  pub counted : Bool
  pub old_left : ℕ
  pub new_left : ℕ
  pub pending_old : Option Chars
  pub git_header : Bool

abbrev pub start : Parser
start = record {
  earlier = [];
  current = none;
  in_hunk = false;
  counted = false;
  old_left = 0;
  new_left = 0;
  pending_old = none;
  git_header = false;
}

abbrev pub files_of : Parser → List FileDiff
files_of p = elim p.current [ none ↦ p.earlier | some f ↦ p.earlier ++ f ∷ [] ]

abbrev pub is_none : {A : Type 0} → Option A → Bool
is_none none = true
is_none (some _) = false

-- `current = FileDiff(path)` and `files.append(current)`.
abbrev pub open_file : Chars → Parser → Parser
open_file path p = record p { earlier = files_of p; current = some (new_file path) }

-- `s.strip()`.
unfoldable pub strip_left : Chars → Chars
strip_left [] = []
strip_left (c ∷ s) = let rest = strip_left s in if is_space c then rest else c ∷ s

unfoldable pub strip_right : Chars → Chars
strip_right [] = []
strip_right (c ∷ s) = let rest = strip_right s in if all is_space (c ∷ s) then [] else c ∷ rest

unfoldable pub strip : Chars → Chars
strip s = strip_right (strip_left s)

-- `s.split(c, 1)[0]`.
unfoldable pub before_char : ℕ → Chars → Chars
before_char c [] = []
before_char c (d ∷ s) = let rest = before_char c s in if d == c then [] else d ∷ rest

abbrev pub with_head : ℕ → List Chars → List Chars
with_head c [] = (c ∷ []) ∷ []
with_head c (part ∷ parts) = (c ∷ part) ∷ parts

-- `s.split(c)`.
unfoldable pub split_at : ℕ → Chars → List Chars
split_at c [] = [] ∷ []
split_at c (d ∷ s) = let rest = split_at c s in if d == c then [] ∷ rest else with_head d rest

-- `_strip_prefix`.
unfoldable pub strip_prefix : Chars → Chars
strip_prefix path =
    let p = before_char 9 (strip path) in
    if starts_with (codes "a/") p || starts_with (codes "b/") p then drop 2 p else p

abbrev pub is_digit : ℕ → Bool
is_digit c = leb b'0' c && leb c b'9'

-- The digits at the front, as a number behind the one so far.
unfoldable pub number_at : ℕ → Chars → ℕ × Chars
number_at n [] = (n, [])
number_at n (c ∷ s) =
    let more = number_at (10 * n + (c - b'0')) s in if is_digit c then more else (n, c ∷ s)

-- `(?:,(\d+))?`.
unfoldable pub count_behind : Chars → Option (ℕ × Chars)
count_behind [] = some (1, [])
count_behind (c ∷ []) = some (1, c ∷ [])
count_behind (c ∷ d ∷ s) =
    if c == b',' && is_digit d then some (number_at 0 (d ∷ s)) else some (1, c ∷ d ∷ s)

-- `\d+(?:,(\d+))?`: the second number, or 1, and the text behind.
unfoldable pub range_at : Chars → Option (ℕ × Chars)
range_at [] = none
range_at (c ∷ s) =
    let (_, rest) = number_at 0 (c ∷ s) in if not (is_digit c) then none else count_behind rest

infixl 10 ◌>>=◌ ◌>>◌
abbrev ◌>>=◌ : {A B : Type 0} → Option A → (A → Option B) → Option B
none >>= f = none
some a >>= f = f a

abbrev ◌>>◌ : {A B : Type 0} → Option A → Option B → Option B
m >> n = m >>= λ _. n

abbrev pub literal : Chars → Chars → Option Chars
literal p s = if starts_with p s then some (drop (length p) s) else none

-- `_HUNK_RE.match(raw)`, with the two counts.
unfoldable pub hunk_counts : Chars → Option (ℕ × ℕ)
hunk_counts raw = do
  s1 ← literal (codes "@@ -") raw
  (old, s2) ← range_at s1
  s3 ← literal (codes " +") s2
  (new, s4) ← range_at s3
  literal (codes " @@") s4
  some (old, new)
