-- ===== src/Base/Texts.antt =====
-- Texts form a set, and their code points put them in a strict total order.
use Prim.Native.Nat.{Ordering}
use Prim.Native.String.compare as compare
use Prim.Native.String.{String, compare}
use mathlib.Core.Path.{◌≡◌, ap}
use mathlib.Core.HLevel.{hedberg}
use mathlib.Core.Bool.{Bool, true, false}
use mathlib.Core.Logic.{◌≢◌, inl, inr}
use native.Mathlib.Omega.{arith}
use text.Mathlib.Text.{◌==◌, is_lt}
use text.Mathlib.TextEquality.{eq_iff, path_by_compare}
use text.Mathlib.TextPositions.{compare_refl}
use starkbank_backend_challe.Base.Tests.{Bool-cases}
use starkbank_backend_challe.Base.Keyset.{Collation}

String-discrete : Discrete String
String-discrete s t = elim (Bool-cases (s == t)) [
  | inl e ↦ yes ((eq_iff s t).0 e)
  | inr e ↦ no (λ p. ground (arith, eq_iff s t, p, e))
]

pub String_set : IsSet String
String_set = hedberg String-discrete

abbrev pub before_codes : String → String → Bool
before_codes s t = is_lt (compare s t)

lt_trans :
    (s t u : String)
    → compare s t ≡ Ordering.lt
    → compare t u ≡ Ordering.lt
    → compare s u ≡ Ordering.lt
lt_trans String.[] String.[] u h k = k
lt_trans String.[] (String.◌∷◌ d t) String.[] h k = ground (arith, compare.cons-nil d t, k)
lt_trans String.[] (String.◌∷◌ d t) (String.◌∷◌ e u) h k = compare.nil-cons e u
lt_trans (String.◌∷◌ c s) String.[] u h k = ground (arith, compare.cons-nil c s, h)
lt_trans (String.◌∷◌ c s) (String.◌∷◌ d t) String.[] h k = ground (arith, compare.cons-nil d t, k)
lt_trans (String.◌∷◌ c s) (String.◌∷◌ d t) (String.◌∷◌ e u) h k = ground (
  arith,
  compare.cons-cons c d s t,
  compare.cons-cons d e t u,
  compare.cons-cons c e s u,
  lt_trans s t u,
)

gt-lt : (s t : String) → compare s t ≡ Ordering.gt → compare t s ≡ Ordering.lt
gt-lt String.[] String.[] h = ground (arith, compare.nil-nil, h)
gt-lt String.[] (String.◌∷◌ d t) h = ground (arith, compare.nil-cons d t, h)
gt-lt (String.◌∷◌ c s) String.[] h = compare.nil-cons c s
gt-lt (String.◌∷◌ c s) (String.◌∷◌ d t) h =
    ground (arith, compare.cons-cons c d s t, compare.cons-cons d c t s, gt-lt s t)

pub before_codes_trans :
    (s t u : String) → before_codes s t ≡ true → before_codes t u ≡ true → before_codes s u ≡ true
before_codes_trans s t u h k = ap is_lt (lt_trans s t u (ground (arith, h)) (ground (arith, k)))

pub before_codes_total : (s t : String) → s ≢ t → before_codes s t ≡ false → before_codes t s ≡ true
before_codes_total s t ne h = ap is_lt (gt-lt s t (ground (arith, path_by_compare s t, ne, h)))

-- A collation by code points.
abbrev pub by_code_points : Collation
by_code_points = record {
  before = before_codes;
  before_irrefl = λ s. ap is_lt (compare_refl s);
  before_trans = before_codes_trans;
  before_total = before_codes_total;
}
