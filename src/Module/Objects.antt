-- ===== src/Module/Objects.antt =====
-- src/module/objects.c: the certificate and the two keys of a grant, with their attributes. A GBytes that
-- is NULL is `none`. GnuTLS's reading of a certificate is a parameter.
pub mod Certificate
pub mod Find
pub mod Attributes
pub mod Secret
pub mod Intent
use xdg_desktop_portal_certi.Base.{
  ℕ, suc, ◌+◌, ◌*◌, ◌%◌, ◌^◌, ◌≡◌, Bool, true, false, not, ◌&&◌, ◌||◌, List, [], ◌∷◌, ◌++◌, Option,
  none, some, ◌==◌, ltb, if◌then◌else◌, bit_or, length, take, drop, find, map, Bytes, bytes_eq,
}
use xdg_desktop_portal_certi.Module.Rv.{
  Rv, ckr_ok, ckr_arguments_bad, ckr_attribute_sensitive, ckr_attribute_type_invalid,
  ckr_buffer_too_small, CkAttribute, class, same_attribute, Abi,
}

-- `PortalAttribute`.
pub record Attribute : Type 0 where
  pub type_of : CkAttribute
  pub value : Option Bytes
  pub sensitive : Bool

-- `PortalObject`.
pub record Object : Type 0 where
  pub handle : ℕ
  pub object_class : ℕ
  pub attributes : List Attribute

-- `PortalObjects`.
pub record Objects : Type 0 where
  pub objects : List Object
  pub identifier : Bytes

-- `CK_ATTRIBUTE`: the memory at `pValue`, NULL as `none`, and `ulValueLen`.
pub record Template : Type 0 where
  pub type_of : CkAttribute
  pub p_value : Option Bytes
  pub value_len : ℕ

-- `find_attribute`.
unfoldable pub find_attribute : Object → CkAttribute → Option Attribute
find_attribute object ty = find (λ a. same_attribute a.type_of ty) object.attributes

-- `(generation << 4) | index`, on a 32-bit `guint`.
unfoldable pub object_handle : ℕ → ℕ → ℕ
object_handle generation index = bit_or (generation * 16 % 2 ^ 32) index

-- `portal_objects_lookup`.
unfoldable pub objects_lookup : Option Objects → ℕ → Option Object
objects_lookup none handle = none
objects_lookup (some os) handle = find (λ o. o.handle == handle) os.objects

-- `memcmp` of a present value with the memory of a template, over the value's length.
abbrev pub same_memory : Bytes → Option Bytes → Bool
same_memory [] p = true
same_memory (b ∷ bs) none = false
same_memory (b ∷ bs) (some memory) = bytes_eq (b ∷ bs) (take (length (b ∷ bs)) memory)

abbrev pub matches_value : Abi → Template → Bytes → Bool
matches_value abi t value =
    not (t.value_len == abi.unavailable)
    && (length value == t.value_len && same_memory value t.p_value)

-- One round of the loop of `portal_object_matches`.
unfoldable pub matches_one : Abi → Object → Template → Bool
matches_one abi object t = elim (find_attribute object t.type_of) [
  | none ↦ false
  | some a ↦ elim a.value [ none ↦ false | some value ↦ matches_value abi t value ]
]

unfoldable pub matches_all : Abi → Object → List Template → Bool
matches_all abi object [] = true
matches_all abi object (t ∷ ts) = matches_one abi object t && matches_all abi object ts

-- `portal_object_matches`: a template that is NULL is `none`, with the count that goes with it.
unfoldable pub object_matches : Abi → Object → Option (List Template) → ℕ → Bool
object_matches abi object none count = count == 0
object_matches abi object (some ts) count = matches_all abi object ts

unfoldable pub handles_of : Abi → List Object → Option (List Template) → ℕ → List ℕ
handles_of abi [] templ count = []
handles_of abi (o ∷ os) templ count =
    let rest = handles_of abi os templ count in
    if object_matches abi o templ count then o.handle ∷ rest else rest

-- `portal_objects_find`.
unfoldable pub objects_find : Abi → Option Objects → Option (List Template) → ℕ → List ℕ
objects_find abi none templ count = []
objects_find abi (some os) templ count = handles_of abi os.objects templ count

-- The flags of `portal_object_get_attributes`.
pub record Flags : Type 0 where
  pub is_sensitive : Bool
  pub is_invalid : Bool
  pub is_too_small : Bool

abbrev pub unavailable_entry : Abi → Template → Template
unavailable_entry abi t = record t { value_len = abi.unavailable }

-- `memcpy (pValue, data, size)`.
abbrev pub write_bytes : Bytes → Bytes → Bytes
write_bytes value memory = value ++ drop (length value) memory

abbrev pub copy_value : Abi → Template → Bytes → Flags → Option Bytes → Template × Flags
copy_value abi t value flags none = (record t { value_len = length value }, flags)
copy_value abi t value flags (some memory) =
    if ltb t.value_len (length value)
    then (unavailable_entry abi t, record flags { is_too_small = true })
    else (record t { p_value = some (write_bytes value memory); value_len = length value }, flags)

abbrev pub answer_value : Abi → Template → Bytes → Flags → Template × Flags
answer_value abi t value flags = copy_value abi t value flags t.p_value

-- The attribute's value and whether it is sensitive.
abbrev pub answer_attribute : Abi → Template → Flags → Option Bytes → Bool → Template × Flags
answer_attribute abi t flags none sensitive =
    (unavailable_entry abi t, record flags { is_sensitive = true })
answer_attribute abi t flags (some value) true =
    (unavailable_entry abi t, record flags { is_sensitive = true })
answer_attribute abi t flags (some value) false = answer_value abi t value flags

abbrev pub answer_found : Abi → Template → Flags → Option Attribute → Template × Flags
answer_found abi t flags none = (unavailable_entry abi t, record flags { is_invalid = true })
answer_found abi t flags (some a) = answer_attribute abi t flags a.value a.sensitive

-- One round of the loop of `portal_object_get_attributes`.
unfoldable pub answer_one : Abi → Object → Template → Flags → Template × Flags
answer_one abi object t flags = answer_found abi t flags (find_attribute object t.type_of)

unfoldable pub answer_all : Abi → Object → List Template → Flags → List Template × Flags
answer_all abi object [] flags = ([], flags)
answer_all abi object (t ∷ ts) flags =
    let (t', flags') = answer_one abi object t flags in
    let (ts', flags'') = answer_all abi object ts flags' in (t' ∷ ts', flags'')

abbrev pub no_flags : Flags
no_flags = record { is_sensitive = false; is_invalid = false; is_too_small = false }

abbrev pub rv_of : Flags → Rv
rv_of flags =
    if flags.is_sensitive
    then ckr_attribute_sensitive
    else if flags.is_invalid
    then ckr_attribute_type_invalid
    else if flags.is_too_small
    then ckr_buffer_too_small
    else ckr_ok

-- `portal_object_get_attributes` on a template of `count` entries that is not NULL.
unfoldable pub get_attributes : Abi → Object → List Template → Rv × List Template
get_attributes abi object ts =
    let (ts', flags) = answer_all abi object ts no_flags in (rv_of flags, ts')
