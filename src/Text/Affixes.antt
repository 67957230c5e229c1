-- ===== src/Text/Affixes.antt =====
-- Prefixes, suffixes and parts of texts that are put together.
use Prim.Native.Char.{Char, code}
use Prim.Native.String.{[], ◌∷◌, ◌++◌}
use text.Mathlib.TextLemmas.{nil-append, cons-append, cons-ne-nil}
use mc_prototype.Base.{
  ◌≡◌, ◌≢◌, refl, sym, ap, ◌∙◌, String, Bool, not, ◌==◌, true, false, ◌||◌, arith, eq_iff, eq_refl,
  str_eq, Bool-cases, inl, inr,
}
use mc_prototype.Text.{has_prefix, has_suffix, contains}

pub has_prefix-append : (p t : String) → has_prefix (p ++ t) p ≡ true
unfolding has_prefix
has_prefix-append [] t = refl
has_prefix-append (c ∷ p) t = rw (cons-append c p t) (ground (arith, has_prefix-append p t))

-- A text is contained wherever it stands.
pub contains-append : (s p t : String) → contains (s ++ (p ++ t)) p ≡ true
unfolding contains
contains-append [] p t = rw (nil-append (p ++ t)) (here (p ++ t) (has_prefix-append p t))
  where
    here : (x : String) → has_prefix x p ≡ true → contains x p ≡ true
    here [] h = h
    here (c ∷ x) h = ground arith
contains-append (c ∷ s) p t = rw (cons-append c s (p ++ t)) (ground (arith, contains-append s p t))

pub has_suffix-append : (s t : String) → has_suffix (s ++ t) t ≡ true
unfolding has_suffix
has_suffix-append [] t = rw (nil-append t) (self t)
  where
    self : (x : String) → has_suffix x x ≡ true
    self [] = ground (arith, eq_refl "")
    self (c ∷ x) = ground (arith, eq_refl (c ∷ x))
has_suffix-append (c ∷ s) t = rw (cons-append c s t) (ground (arith, has_suffix-append s t))

pub ends_apart : (c d : Char) → (code c == code d) ≡ false → c ≢ d
ends_apart c d h e = let same = ap code e in ground (arith, h, same)

-- The last character, and `c` where there is none.
unfoldable pub last : Char → String → Char
last c [] = c
last c (d ∷ s) = last d s

last-append : (c : Char) (s t : String) → last c (s ++ t) ≡ last (last c s) t
unfolding last
last-append c [] t = rw (nil-append t) refl
last-append c (d ∷ s) t = rw (cons-append d s t) (last-append d s t)

-- A text ends as its suffix does.
last-has_suffix : (c e : Char) (s t : String) → has_suffix s (e ∷ t) ≡ true → last c s ≡ last e t
unfolding has_suffix last
last-has_suffix c e [] t h = absurd (cons-ne-nil e t (sym ((eq_iff "" (e ∷ t)).0 h)))
last-has_suffix c e (d ∷ s) t h = elim (Bool-cases (str_eq (d ∷ s) (e ∷ t))) [
  | inl same ↦ ap (last c) ((eq_iff (d ∷ s) (e ∷ t)).0 same)
  | inr other ↦ last-has_suffix d e s t (ground (arith, h, other))
]

-- So a text that ends otherwise has not that suffix.
pub has_suffix-append-false :
    (s : String) (c d : Char) (t u : String)
    → last c t ≢ last d u
    → has_suffix (s ++ (c ∷ t)) (d ∷ u) ≡ false
unfolding last
has_suffix-append-false s c d t u h = elim (Bool-cases (has_suffix (s ++ (c ∷ t)) (d ∷ u))) [
  | inl e ↦ absurd (h (sym (last-append c s (c ∷ t)) ∙ last-has_suffix c d (s ++ (c ∷ t)) u e))
  | inr e ↦ e
]

-- Two texts that differ before either ends.
unfoldable pub apart : String → String → Bool
apart [] p = false
apart (c ∷ q) [] = false
apart (c ∷ q) (d ∷ p) = not (code c == code d) || apart q p

pub has_prefix-append-false : (q p t : String) → apart q p ≡ true → has_prefix (q ++ t) p ≡ false
unfolding apart has_prefix
has_prefix-append-false [] p t h = ground (arith, h)
has_prefix-append-false (c ∷ q) [] t h = ground (arith, h)
has_prefix-append-false (c ∷ q) (d ∷ p) t h =
    rw (cons-append c q t) (ground (arith, h, has_prefix-append-false q p t))
