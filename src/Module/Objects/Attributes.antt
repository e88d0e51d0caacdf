-- ===== src/Module/Objects/Attributes.antt =====
-- What `portal_object_get_attributes` writes.
use xdg_desktop_portal_certi.Base.{
  ◌≤◌, ◌≡◌, ◌≢◌, refl, sym, ◌∙◌, ap, ◌⊎◌, inl, inr, Bool, true, false, ◌||◌, List, [], ◌∷◌, Option,
  none, some, ltb, length, drop, length-append, length-drop, All, All2, Bytes, if-cases, arith,
}
use xdg_desktop_portal_certi.Module.Rv.{ckr_ok, Abi}
use xdg_desktop_portal_certi.Module.Objects.{
  Attribute, Object, Template, Flags, find_attribute, unavailable_entry, write_bytes, copy_value,
  answer_attribute, answer_found, answer_one, answer_all, no_flags, rv_of, get_attributes,
}

-- The entry was given the value of a present attribute that is not sensitive: its length, and its bytes
-- where there is memory that is long enough.
abbrev pub Given : Object → Template → Template → Type 0
Given object t t' =
    (a : Attribute) × (v : Bytes) × (find_attribute object t.type_of ≡ some a)
    × (a.sensitive ≡ false)
    × (a.value ≡ some v)
    × (t'.value_len ≡ length v)
    × (((t.p_value ≡ none) × (t'.p_value ≡ none))
        ⊎ ((m : Bytes) × (t.p_value ≡ some m)
            × (length v ≤ t.value_len)
            × (t'.p_value ≡ some (write_bytes v m))))

-- The entry only says that there is no information.
abbrev pub Withheld : Abi → Template → Template → Type 0
Withheld abi t t' = t' ≡ unavailable_entry abi t

abbrev raised : Flags → Bool
raised f = f.is_sensitive || (f.is_invalid || f.is_too_small)

-- What a round leaves: an entry that was given its value, or one withheld with a flag raised.
abbrev Outcome : Abi → Object → Template → Flags → Template × Flags → Type 0
Outcome abi o t f (t', f') = (Given o t t' × (f' ≡ f)) ⊎ (Withheld abi t t' × (raised f' ≡ true))

module _ (abi : Abi) (o : Object) (t : Template) (f : Flags) where
  copy-Outcome :
      (a : Attribute) (v : Bytes)
      → find_attribute o t.type_of ≡ some a
      → a.sensitive ≡ false
      → a.value ≡ some v
      → (p : Option Bytes) → t.p_value ≡ p
      → Outcome abi o t f (copy_value abi t v f p)
  copy-Outcome a v found open_to given none p =
      inl ((a, v, found, open_to, given, refl, inl (p, p)), refl)
  copy-Outcome a v found open_to given (some m) p =
      if-cases (Outcome abi o t f) (ltb t.value_len (length v)) (λ short. inr (refl, ground arith))
        (λ room. inl ((a, v, found, open_to, given, refl, inr (m, p, ground arith, refl)), refl))

  attribute-Outcome :
      (a : Attribute)
      → find_attribute o t.type_of ≡ some a
      → (v : Option Bytes) → a.value ≡ v
      → (s : Bool) → a.sensitive ≡ s
      → Outcome abi o t f (answer_attribute abi t f v s)
  attribute-Outcome a found none value s sensitive = inr (refl, refl)
  attribute-Outcome a found (some v) value true sensitive = inr (refl, refl)
  attribute-Outcome a found (some v) value false sensitive =
      copy-Outcome a v found sensitive value t.p_value refl

  found-Outcome :
      (x : Option Attribute)
      → find_attribute o t.type_of ≡ x
      → Outcome abi o t f (answer_found abi t f x)
  found-Outcome none e = inr (refl, ground arith)
  found-Outcome (some a) e = attribute-Outcome a e a.value refl a.sensitive refl

  answer_one-Outcome : Outcome abi o t f (answer_one abi o t f)
  unfolding answer_one
  answer_one-Outcome = found-Outcome (find_attribute o t.type_of) refl

module _ (abi : Abi) (o : Object) where
  raised_stays :
      (ts : List Template) (f : Flags) → raised f ≡ true → raised (answer_all abi o ts f).1 ≡ true
  unfolding answer_all
  raised_stays [] f h = h
  raised_stays (t ∷ ts) f h =
      raised_stays ts (answer_one abi o t f).1
        (elim (answer_one-Outcome abi o t f) [ inl (g, e) ↦ rw e h | inr (w, e) ↦ e ])

  answered :
      (ts : List Template) (f : Flags)
      → All2 (λ t t'. Given o t t' ⊎ Withheld abi t t') ts (answer_all abi o ts f).0
  unfolding answer_all
  answered [] f = tt
  answered (t ∷ ts) f = (
    elim (answer_one-Outcome abi o t f) [ inl (g, e) ↦ inl g | inr (w, e) ↦ inr w ],
    answered ts (answer_one abi o t f).1,
  )

  all-Given :
      (ts : List Template) (f : Flags)
      → (raised (answer_all abi o ts f).1 ≡ true) ⊎ All2 (Given o) ts (answer_all abi o ts f).0
  unfolding answer_all
  all-Given [] f = inr tt
  all-Given (t ∷ ts) f = elim (answer_one-Outcome abi o t f) [
    | inr (w, e) ↦ inl (raised_stays ts (answer_one abi o t f).1 e)
    | inl (g, e) ↦ elim (all-Given ts (answer_one abi o t f).1) [
      | inl r ↦ inl r
      | inr gs ↦ inr (g, gs)
    ]
  ]

  rv-raised : (f : Flags) → raised f ≡ true → rv_of f ≢ ckr_ok
  rv-raised f h e = ground arith

  -- Each entry of the template is either given the value of an attribute that the object has and that
  -- is not sensitive, or is marked as unavailable with its memory untouched, and the call returns
  -- CKR_OK only if every entry was given its value.
  pub get_attributes-Given :
      (ts : List Template)
      → All2 (λ t t'. Given o t t' ⊎ Withheld abi t t') ts (get_attributes abi o ts).1
        × (((get_attributes abi o ts).0 ≢ ckr_ok) ⊎ All2 (Given o) ts (get_attributes abi o ts).1)
  unfolding get_attributes
  get_attributes-Given ts = (
    answered ts no_flags,
    elim (all-Given ts no_flags) [ inl r ↦ inl (rv-raised _ r) | inr gs ↦ inr gs ],
  )

-- The memory of an entry is as long as the caller says.
abbrev pub Fits : Template → Type 0
Fits t = (t.p_value ≡ none) ⊎ ((m : Bytes) × (t.p_value ≡ some m) × (t.value_len ≤ length m))

-- Memory that keeps its length: nothing was written behind its end.
abbrev pub SameRoom : Template → Template → Type 0
SameRoom t t' =
    (t'.p_value ≡ t.p_value)
    ⊎ ((m : Bytes) × (m' : Bytes) × (t.p_value ≡ some m)
        × (t'.p_value ≡ some m')
        × (length m' ≡ length m))

Given-SameRoom : (o : Object) (t t' : Template) → Fits t → Given o t t' → SameRoom t t'
Given-SameRoom o t t' fits (a, v, found, open_to, value, len, inl (p, p')) = inl (p' ∙ sym p)
Given-SameRoom o t t' (inl q) (a, v, found, open_to, value, len, inr (m, p, long, p')) =
    absurd (ground (arith, p, q))
Given-SameRoom o t t' (inr (n, q, room)) (a, v, found, open_to, value, len, inr (m, p, long, p')) =
    let same : n ≡ m = ground (arith, p, q) in
    let room' : t.value_len ≤ length m = rw (← same) room in
    inr (
      m,
      write_bytes v m,
      p,
      p',
      omega (arith, length-append v (drop (length v) m), length-drop (length v) m),
    )

-- For a template whose lengths are true, no byte is written outside of the caller's memory.
pub get_attributes-SameRoom :
    (abi : Abi) (o : Object) (ts : List Template)
    → All Fits ts
    → All2 SameRoom ts (get_attributes abi o ts).1
get_attributes-SameRoom abi o ts fits = go ts _ fits (get_attributes-Given abi o ts).0
  where
    go :
        (xs ys : List Template)
        → All Fits xs
        → All2 (λ t t'. Given o t t' ⊎ Withheld abi t t') xs ys
        → All2 SameRoom xs ys
    go [] [] all h = tt
    go [] (y ∷ ys) all h = h
    go (x ∷ xs) [] all h = h
    go (x ∷ xs) (y ∷ ys) (fit, all) (inl g, h) = (Given-SameRoom o x y fit g, go xs ys all h)
    go (x ∷ xs) (y ∷ ys) (fit, all) (inr w, h) =
        (inl (ap (λ (t : Template). t.p_value) w), go xs ys all h)
