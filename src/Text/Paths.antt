-- ===== src/Text/Paths.antt =====
-- The paths that the agent builds, taken apart again by strings.Trim and strings.Split.
use Prim.Native.Char.{code}
use Prim.Native.String.{[], ◌∷◌, ◌++◌}
use mathlib.Core.List.{List, [], ◌∷◌}
use text.Mathlib.TextLemmas.{append-nil, nil-append, cons-append, append-ne-nil_of_right_ne-nil}
use mc_prototype.Base.{
  sym, ap, ◌∙◌, All, ◌≡◌, ◌≢◌, refl, String, Bool, true, not, ◌&&◌, arith, ◌==◌, str_ne,
}
use mc_prototype.Text.{trim_slashes, trim_left, slash, trim_right, split, prepend}
use mc_prototype.Base.{str_eq, ltb, ◌||◌}

-- Whether a text is one segment of a path.
unfoldable pub no_slash : String → Bool
no_slash [] = true
no_slash (c ∷ s) = not (code c == slash) && no_slash s

-- A text that a URL's path takes as it is: no slash, none of ? # %, and no control character.
unfoldable pub is_plain : String → Bool
is_plain [] = true
is_plain (c ∷ s) =
    not (
      code c == slash
      || code c == 63
      || (code c == 35 || code c == 37)
      || ltb (code c) 32
      || code c == 127)
    && is_plain s

-- One segment that http.ServeMux leaves as it is.
unfoldable pub is_segment : String → Bool
is_segment s = is_plain s && not (str_eq s "" || (str_eq s "." || str_eq s ".."))

is_plain-no_slash : (s : String) → is_plain s ≡ true → no_slash s ≡ true
unfolding is_plain no_slash
is_plain-no_slash [] h = refl
is_plain-no_slash (c ∷ s) h = ground (arith, h, is_plain-no_slash s)

pub is_segment-no_slash : (s : String) → is_segment s ≡ true → no_slash s ≡ true
unfolding is_segment
is_segment-no_slash s h = is_plain-no_slash s (ground arith)

pub split-segment : (s : String) → no_slash s ≡ true → split slash s ≡ s ∷ []
unfolding no_slash split prepend
split-segment [] h = refl
split-segment (c ∷ s) h = ground (arith, split-segment s)

pub split-append :
    (s t : String) → no_slash s ≡ true → split slash (s ++ ("/" ++ t)) ≡ s ∷ split slash t
unfolding no_slash split prepend
split-append [] t h = rw (nil-append ("/" ++ t), cons-append "/" "" t, nil-append t) refl
split-append (c ∷ s) t h = rw (cons-append c s ("/" ++ t)) (ground (arith, split-append s t))

pub trim_right-append : (s t : String) → t ≢ "" → trim_right t ≡ t → trim_right (s ++ t) ≡ s ++ t
unfolding trim_right
trim_right-append [] t h e = rw (nil-append t) e
trim_right-append (c ∷ s) t h e =
    rw
      (
        cons-append c s t,
        trim_right-append s t h e,
        str_ne (s ++ t) "" (append-ne-nil_of_right_ne-nil s h),
      )
      (ground arith)

-- strings.Join(parts, "/")
unfoldable pub join : List String → String
join [] = ""
join (s ∷ []) = s
join (s ∷ t ∷ ts) = let rest = join (t ∷ ts) in s ++ ("/" ++ rest)

abbrev pub Segments : List String → Type 0
Segments parts = All (λ s. no_slash s ≡ true) parts

pub split-join :
    (s : String) (ts : List String) → Segments (s ∷ ts) → split slash (join (s ∷ ts)) ≡ s ∷ ts
unfolding join
split-join s [] h = split-segment s h.0
split-join s (t ∷ ts) h = split-append s (join (t ∷ ts)) h.0 ∙ ap (λ l. s ∷ l) (split-join t ts h.1)

-- The last of the segments that begin with `s`.
abbrev pub last_of : String → List String → String
last_of s [] = s
last_of s (t ∷ ts) = last_of t ts

trim_right-segment : (s : String) → no_slash s ≡ true → trim_right s ≡ s
unfolding trim_right no_slash
trim_right-segment [] h = refl
trim_right-segment (c ∷ s) h = ground (arith, trim_right-segment s)

trim_right-join :
    (s : String) (ts : List String)
    → Segments (s ∷ ts)
    → last_of s ts ≢ ""
    → (join (s ∷ ts) ≢ "") × (trim_right (join (s ∷ ts)) ≡ join (s ∷ ts))
unfolding join
trim_right-join s [] h n = (n, trim_right-segment s h.0)
trim_right-join s (t ∷ ts) h n =
    let (some_rest, kept) = trim_right-join t ts h.1 n in
    let filled = append-ne-nil_of_right_ne-nil "/" some_rest in
    (
      append-ne-nil_of_right_ne-nil s filled,
      trim_right-append s ("/" ++ join (t ∷ ts)) filled
          (trim_right-append "/" (join (t ∷ ts)) some_rest kept),
    )

trim_left-append : (s t : String) → no_slash s ≡ true → s ≢ "" → trim_left (s ++ t) ≡ s ++ t
unfolding trim_left no_slash
trim_left-append [] t h n = absurd (n refl)
trim_left-append (c ∷ s) t h n = rw (cons-append c s t) (ground arith)

trim_left-join :
    (s : String) (ts : List String)
    → Segments (s ∷ ts)
    → s ≢ ""
    → trim_left ("/" ++ join (s ∷ ts)) ≡ join (s ∷ ts)
unfolding join trim_left
trim_left-join s [] h n =
    rw (cons-append "/" "" s, nil-append s)
      (ap trim_left (sym (append-nil s)) ∙ trim_left-append s "" h.0 n ∙ append-nil s)
trim_left-join s (t ∷ ts) h n =
    let rest = s ++ ("/" ++ join (t ∷ ts)) in
    rw (cons-append "/" "" rest, nil-append rest) (trim_left-append s ("/" ++ join (t ∷ ts)) h.0 n)

-- A path of segments, of which neither the first nor the last is empty, has these segments.
pub split-trim_slashes-join :
    (s : String) (ts : List String)
    → Segments (s ∷ ts)
    → s ≢ ""
    → last_of s ts ≢ ""
    → split slash (trim_slashes ("/" ++ join (s ∷ ts))) ≡ s ∷ ts
unfolding trim_slashes
split-trim_slashes-join s ts h n l =
    rw (trim_left-join s ts h n, (trim_right-join s ts h l).1) (split-join s ts h)
