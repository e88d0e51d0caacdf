-- ===== src/Tests/Ascii.antt =====
-- Comparison without regard to the case of ASCII letters, as GLib documents it, for the runs.
use xdg_desktop_portal_certi.Base.{
  ℕ, ◌+◌, ◌≡◌, refl, ap, Bool, true, ◌&&◌, [], ◌∷◌, ◌++◌, map, leb, if◌then◌else◌, length, take,
  Bytes, bytes_eq, bytes_eq_refl,
}
use xdg_desktop_portal_certi.Glib.{AsciiCase}

abbrev lower : ℕ → ℕ
lower c = if leb b'A' c && leb c b'Z' then c + 32 else c

abbrev pub casecmp : Bytes → Bytes → Bool
casecmp a b = bytes_eq (map lower a) (map lower b)

abbrev pub ncasecmp : Bytes → Bytes → ℕ → Bool
ncasecmp a b n = bytes_eq (take n (map lower a)) (take n (map lower b))

prefix : (p s : Bytes) → take (length p) (map lower (p ++ s)) ≡ take (length p) (map lower p)
prefix [] s = refl
prefix (x ∷ p) s = ap (◌∷◌ (lower x)) (prefix p s)

pub casecmp_same : (a : Bytes) → casecmp a a ≡ true
casecmp_same a = bytes_eq_refl (map lower a)

pub ncasecmp_same : (p s : Bytes) → ncasecmp (p ++ s) p (length p) ≡ true
ncasecmp_same p s = rw (prefix p s) (bytes_eq_refl (take (length p) (map lower p)))

abbrev pub ascii : AsciiCase
ascii = record {
  casecmp = casecmp;
  ncasecmp = ncasecmp;
  casecmp_refl = casecmp_same;
  ncasecmp_prefix = ncasecmp_same;
}
