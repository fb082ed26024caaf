-- ===== src/Linux/Dns/Owner.antt =====
-- src/linux/dns.rs: the sentinel line that names the owner of a file, written and read.
use network_manager_rs.Common.{
  ℕ, ◌≡◌, ◌≢◌, refl, ap, Bool, true, false, ◌&&◌, ◌||◌, Option, none, some, List, [], ◌∷◌, ◌++◌,
  Str, str, ◌==◌, leb, if◌then◌else◌, find_map, find_map_first, All, All-append, arith,
  append_assoc, append-nil,
}

-- `char::is_whitespace`: the characters of Unicode's White_Space.
unfoldable pub is_white : ℕ → Bool
is_white c =
    (leb 9 c && leb c 13)
    || c == 32
    || c == 133
    || c == 160
    || c == 5760
    || (leb 8192 c && leb c 8202)
    || c == 8232
    || c == 8233
    || c == 8239
    || c == 8287
    || c == 12288

unfoldable pub trim_start : Str → Str
trim_start [] = []
trim_start (c ∷ cs) = let rest = trim_start cs in if is_white c then rest else c ∷ cs

-- A character stays where something other than white space follows it.
unfoldable pub keep_before : ℕ → Str → Str
keep_before c [] = if is_white c then [] else c ∷ []
keep_before c (d ∷ ds) = c ∷ (d ∷ ds)

unfoldable pub trim_end : Str → Str
trim_end [] = []
trim_end (c ∷ cs) = keep_before c (trim_end cs)

unfoldable pub trim : Str → Str
trim s = trim_end (trim_start s)

unfoldable pub is_blank : Str → Bool
is_blank s = elim (trim s) [ [] ↦ true | ◌∷◌ c cs ↦ false ]

-- `str::lines`: at each newline, without the carriage return before it; a last line that is empty does
-- not count.
unfoldable pub without_return : Str → Str
without_return [] = []
without_return (c ∷ []) = if c == 13 then [] else c ∷ []
without_return (c ∷ (d ∷ ds)) = c ∷ without_return (d ∷ ds)

-- The lines, each with a mark that says whether a newline ends it.
abbrev pub prepend_marked : ℕ → List (Str × Bool) → List (Str × Bool)
prepend_marked c [] = (c ∷ [], false) ∷ []
prepend_marked c ((line, ended) ∷ rest) = (c ∷ line, ended) ∷ rest

unfoldable pub split_lines : Str → List (Str × Bool)
split_lines [] = []
split_lines (c ∷ cs) =
    let rest = split_lines cs in if c == 10 then ([], true) ∷ rest else prepend_marked c rest

unfoldable pub line_of : Str × Bool → Str
line_of (line, true) = without_return line
line_of (line, false) = line

unfoldable pub lines_of : List (Str × Bool) → List Str
lines_of [] = []
lines_of (l ∷ rest) = line_of l ∷ lines_of rest

unfoldable pub lines : Str → List Str
lines s = lines_of (split_lines s)

unfoldable pub strip_prefix : Str → Str → Option Str
strip_prefix [] s = some s
strip_prefix (c ∷ cs) [] = none
strip_prefix (c ∷ cs) (d ∷ ds) = if c == d then strip_prefix cs ds else none

abbrev pub sentinel_prefix : Str
sentinel_prefix = str "# nmd-owned owner="

abbrev pub unless_empty : Str → Option Str
unless_empty [] = none
unless_empty (c ∷ cs) = some (c ∷ cs)

abbrev pub owner_of_line : Option Str → Option Str
owner_of_line none = none
owner_of_line (some owner) = unless_empty (trim owner)

unfoldable pub parse_owner : Str → Option Str
parse_owner content = owner_of_line (find_map (strip_prefix sentinel_prefix) (lines content))

-- An owner that a line can carry: a text without white space.
pub record IsOwner (owner : Str) : Type 0 where
  pub filled : owner ≢ []
  pub solid : All (λ c. is_white c ≡ false) owner

prepend_all : Str → List (Str × Bool) → List (Str × Bool)
prepend_all [] rest = rest
prepend_all (c ∷ cs) rest = prepend_marked c (prepend_all cs rest)

prepend_all-ended :
    (s line : Str) (rest : List (Str × Bool))
    → prepend_all s ((line, true) ∷ rest) ≡ (s ++ line, true) ∷ rest
unfolding prepend_all
prepend_all-ended [] line rest = refl
prepend_all-ended (c ∷ cs) line rest = rw (prepend_all-ended cs line rest)

split_lines-append :
    (s t : Str)
    → All (λ c. (c == 10) ≡ false) s
    → split_lines (s ++ t) ≡ prepend_all s (split_lines t)
unfolding split_lines prepend_all
split_lines-append [] t h = refl
split_lines-append (c ∷ cs) t h = rw (h.0, split_lines-append cs t h.1)

lines-line :
    (s t : Str)
    → All (λ c. (c == 10) ≡ false) s
    → lines (s ++ (10 ∷ t)) ≡ without_return s ∷ lines t
unfolding lines lines_of line_of split_lines
lines-line s t h =
    rw (split_lines-append s (10 ∷ t) h, prepend_all-ended s [] (split_lines t), append-nil s)

strip_prefix-append : (p s : Str) → strip_prefix p (p ++ s) ≡ some s
unfolding strip_prefix
strip_prefix-append [] s = refl
strip_prefix-append (c ∷ cs) s = ground (arith, strip_prefix-append cs s)

no_newline : (s : Str) → All (λ c. is_white c ≡ false) s → All (λ c. (c == 10) ≡ false) s
unfolding is_white
no_newline [] h = tt
no_newline (c ∷ cs) h = (ground arith, no_newline cs h.1)

-- What ends in a text without white space keeps its last character.
without_return-append :
    (s : Str) (c : ℕ) (t : Str)
    → All (λ d. is_white d ≡ false) (c ∷ t)
    → without_return (s ++ (c ∷ t)) ≡ s ++ (c ∷ t)
unfolding without_return is_white
without_return-append [] c [] h = ground arith
without_return-append [] c (d ∷ ds) h = ap (◌∷◌ c) (without_return-append [] d ds h.1)
without_return-append (x ∷ []) c t h = ap (◌∷◌ x) (without_return-append [] c t h)
without_return-append (x ∷ (y ∷ ys)) c t h = ap (◌∷◌ x) (without_return-append (y ∷ ys) c t h)

trim_end_solid : (s : Str) → All (λ c. is_white c ≡ false) s → trim_end s ≡ s
unfolding trim_end keep_before
trim_end_solid [] h = refl
trim_end_solid (c ∷ []) h = rw (h.0)
trim_end_solid (c ∷ (d ∷ ds)) h = rw (trim_end_solid (d ∷ ds) h.1)

trim_solid : (s : Str) → All (λ c. is_white c ≡ false) s → trim s ≡ s
unfolding trim trim_start
trim_solid [] h = trim_end_solid [] h
trim_solid (c ∷ cs) h = rw (h.0) (trim_end_solid (c ∷ cs) h)

found_first :
    (p : Str) (c : ℕ) (cs body : Str)
    → All (λ d. (d == 10) ≡ false) p
    → All (λ d. is_white d ≡ false) (c ∷ cs)
    → owner_of_line (find_map (strip_prefix p) (lines (p ++ ((c ∷ cs) ++ (10 ∷ body)))))
      ≡ some (c ∷ cs)
found_first p c cs body hp h = rw (
  ← append_assoc p (c ∷ cs) (10 ∷ body),
  lines-line (p ++ (c ∷ cs)) body
      (All-append (λ d. (d == 10) ≡ false) p (c ∷ cs) hp (no_newline (c ∷ cs) h)),
  without_return-append p c cs h,
  find_map_first (strip_prefix p) (p ++ (c ∷ cs)) (lines body) (c ∷ cs)
      (strip_prefix-append p (c ∷ cs)),
  trim_solid (c ∷ cs) h,
)

-- The owner that a sentinel line names is read back, whatever follows the line.
pub parse_owner-sentinel :
    (owner body : Str)
    → IsOwner owner
    → parse_owner (sentinel_prefix ++ (owner ++ (10 ∷ body))) ≡ some owner
unfolding parse_owner
parse_owner-sentinel [] body h = absurd (h.filled refl)
parse_owner-sentinel (c ∷ cs) body h = found_first sentinel_prefix c cs body (ground arith) h.solid
