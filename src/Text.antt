-- ===== src/Text.antt =====
-- What the program uses of Go's strings and strconv, over texts by code point.
pub mod Decimal
pub mod Paths
pub mod Parts
pub mod Clean
pub mod Affixes
use Prim.Native.Char.{Char, code}
use Prim.Native.String.{[], ◌∷◌}
use mathlib.Core.List.{[], ◌∷◌}
use mc_prototype.Base.{
  ℕ, zero, suc, ◌+◌, ◌-◌, ◌*◌, String, List, Option, none, some, Bool, true, false, ◌&&◌, ◌||◌,
  ◌==◌, leb, ltb, str_eq, ℤ, pos, negsuc, uint64_limit, int64_limit, if◌then◌else◌,
}

abbrev pub slash : ℕ
slash = 47

-- strings.TrimLeft(s, "/") and strings.TrimRight(s, "/").
unfoldable pub trim_left : String → String
trim_left [] = ""
trim_left (c ∷ s) = let rest = trim_left s in if code c == slash then rest else c ∷ s

unfoldable pub trim_right : String → String
trim_right [] = ""
trim_right (c ∷ s) =
    let rest = trim_right s in if (code c == slash) && str_eq rest "" then "" else c ∷ rest

-- strings.Trim(s, "/")
unfoldable pub trim_slashes : String → String
unfolding trim_left trim_right
trim_slashes s = trim_right (trim_left s)

prepend : Char → List String → List String
prepend c [] = (c ∷ "") ∷ []
prepend c (p ∷ ps) = (c ∷ p) ∷ ps

-- strings.Split(s, sep) for a separator of one character.
unfoldable pub split : ℕ → String → List String
unfolding prepend
split sep [] = "" ∷ []
split sep (c ∷ s) = let rest = split sep s in if code c == sep then "" ∷ rest else prepend c rest

-- strings.HasPrefix, strings.TrimPrefix
unfoldable pub has_prefix : String → String → Bool
has_prefix s [] = true
has_prefix [] (d ∷ p) = false
has_prefix (c ∷ s) (d ∷ p) = (code c == code d) && has_prefix s p

-- strings.HasSuffix
unfoldable pub has_suffix : String → String → Bool
has_suffix [] p = str_eq "" p
has_suffix (c ∷ s) p = str_eq (c ∷ s) p || has_suffix s p

-- strings.Contains
unfoldable pub contains : String → String → Bool
unfolding has_prefix
contains [] p = has_prefix "" p
contains (c ∷ s) p = has_prefix (c ∷ s) p || contains s p

drop_prefix : String → String → String
drop_prefix s [] = s
drop_prefix [] (d ∷ p) = ""
drop_prefix (c ∷ s) (d ∷ p) = drop_prefix s p

unfoldable pub trim_prefix : String → String → String
unfolding has_prefix drop_prefix
trim_prefix s p = if has_prefix s p then drop_prefix s p else s

-- strings.TrimSuffix
unfoldable pub trim_suffix : String → String → String
trim_suffix [] p = ""
trim_suffix (c ∷ s) p = let rest = trim_suffix s p in if str_eq (c ∷ s) p then "" else c ∷ rest

-- len(s): the bytes of UTF-8.
unfoldable pub byte_length : String → ℕ
byte_length [] = 0
byte_length (c ∷ s) =
    let rest = byte_length s in
    let x = code c in
    (if ltb x 128 then 1 else if ltb x 2048 then 2 else if ltb x 65536 then 3 else 4) + rest

-- unicode.ToLower, as far as its value is a letter of ASCII.
lower : ℕ → ℕ
lower c =
    if leb 65 c && leb c 90 then c + 32 else if c == 304 then 105 else if c == 8490 then 107 else c

-- strings.ToLower(s) == t, for a text t of ASCII.
unfoldable pub lower_is : String → String → Bool
unfolding lower
lower_is [] [] = true
lower_is [] (d ∷ t) = false
lower_is (c ∷ s) [] = false
lower_is (c ∷ s) (d ∷ t) = (lower (code c) == code d) && lower_is s t

-- unicode.IsSpace
is_space : ℕ → Bool
is_space c =
    (leb 9 c && leb c 13)
    || ((c == 32)
        || ((c == 133)
            || ((c == 160)
                || ((c == 5760)
                    || ((leb 8192 c && leb c 8202)
                        || ((c == 8232)
                            || ((c == 8233) || ((c == 8239) || ((c == 8287) || (c == 12288))))))))))

space_left : String → String
unfolding is_space
space_left [] = ""
space_left (c ∷ s) = let rest = space_left s in if is_space (code c) then rest else c ∷ s

space_right : String → String
unfolding is_space
space_right [] = ""
space_right (c ∷ s) =
    let rest = space_right s in if is_space (code c) && str_eq rest "" then "" else c ∷ rest

unfoldable pub trim_space : String → String
unfolding space_left space_right
trim_space s = space_right (space_left s)

-- The value of a text of decimal digits.
digits_from : ℕ → String → Option ℕ
digits_from acc [] = some acc
digits_from acc (c ∷ s) =
    let rest = digits_from (acc * 10 + (code c - 48)) s in
    if leb 48 (code c) && leb (code c) 57 then rest else none

below : ℕ → Option ℕ → Option ℕ
below limit none = none
below limit (some n) = if ltb n limit then some n else none

-- strconv.ParseUint(s, 10, 64)
unfoldable pub parse_uint : String → Option ℕ
unfolding digits_from below
parse_uint [] = none
parse_uint (c ∷ s) = below uint64_limit (digits_from 0 (c ∷ s))

negative : Option ℕ → Option ℤ
negative none = none
negative (some zero) = some (pos 0)
negative (some (suc n)) = if leb (suc n) int64_limit then some (negsuc n) else none

positive : Option ℕ → Option ℤ
positive none = none
positive (some n) = if ltb n int64_limit then some (pos n) else none

-- strconv.Atoi
unfoldable pub atoi : String → Option ℤ
unfolding parse_uint negative positive
atoi [] = none
atoi (c ∷ s) =
    if code c == 45
    then negative (parse_uint s)
    else if code c == 43
    then positive (parse_uint s)
    else positive (parse_uint (c ∷ s))
