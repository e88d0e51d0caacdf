-- ===== src/Glib.antt =====
-- What the code uses of GLib. A `GVariant` is data: a value of one of the types that the code asks
-- for, or of another. Comparison without regard to case is a parameter.
use xdg_desktop_portal_certi.Base.{
  ℕ, ◌≡◌, Bool, true, List, [], ◌∷◌, ◌++◌, Option, none, some, if◌then◌else◌, length, Bytes,
  bytes_eq,
}

mutual
  pub data Variant : Type 0 where
    string : Bytes → Variant
    uint32 : ℕ → Variant
    byte_array : Bytes → Variant
    byte_arrays : List Bytes → Variant
    strings : List Bytes → Variant
    vardict : Dict → Variant
    other_type : Variant

  pub data Dict : Type 0 where
    empty : Dict
    entry : Bytes → Variant → Dict → Dict

-- `g_variant_lookup_value` with no type.
unfoldable pub lookup_value : Dict → Bytes → Option Variant
lookup_value empty key = none
lookup_value (entry k v d) key = if bytes_eq k key then some v else lookup_value d key

-- The keys in the order of `g_variant_iter_next`.
unfoldable pub keys : Dict → List Bytes
keys empty = []
keys (entry k v d) = k ∷ keys d

abbrev pub as_string : Variant → Option Bytes
as_string (string s) = some s
as_string _ = none

-- `g_variant_lookup (d, key, "&s", &text)`: a present string.
unfoldable pub lookup_text : Dict → Bytes → Option Bytes
lookup_text d key = elim (lookup_value d key) [ none ↦ none | some v ↦ as_string v ]

-- `g_strcmp0 (a, b) == 0` where `a` may be NULL and `b` is a literal.
unfoldable pub is_text : Option Bytes → Bytes → Bool
is_text none b = Bool.false
is_text (some a) b = bytes_eq a b

-- `g_ascii_strcasecmp (a, b) == 0` and `g_ascii_strncasecmp (a, b, n) == 0`, of which the code relies
-- on this: texts that are equal, or that begin with the same `n` bytes, compare as equal.
pub record AsciiCase : Type 0 where
  pub casecmp : Bytes → Bytes → Bool
  pub ncasecmp : Bytes → Bytes → ℕ → Bool
  pub casecmp_refl : (a : Bytes) → casecmp a a ≡ true
  pub ncasecmp_prefix : (p s : Bytes) → ncasecmp (p ++ s) p (length p) ≡ true
