-- ===== src/Module/Objects/Intent.antt =====
-- `portal_template_intent`: whether a search may open the chooser.
pub mod Justified
use xdg_desktop_portal_certi.Base.{
  ℕ, suc, Bool, true, false, not, ◌&&◌, ◌||◌, List, [], ◌∷◌, Option, none, some, ◌>>=◌, ◌==◌,
  if◌then◌else◌, length, take, Bytes, bytes_eq, contains,
}
use xdg_desktop_portal_certi.Module.Grant.{object_label}
use xdg_desktop_portal_certi.Module.Rv
use xdg_desktop_portal_certi.Module.Rv.{Abi, same_attribute}
use xdg_desktop_portal_certi.Module.Objects.{Template, same_memory}

-- `PortalTemplateIntent`.
pub data Intent : Type 0 where
  unrelated enumerates names_credential : Intent

abbrev label_in : Abi → Template → Option Bytes → Bool
label_in abi t none = false
label_in abi t (some memory) =
    not (t.value_len == abi.unavailable)
    && (t.value_len == length object_label && same_memory object_label (some memory))

-- `template_names_our_label`.
unfoldable pub names_our_label : Abi → Template → Bool
names_our_label abi t = label_in abi t t.p_value

abbrev true_in : Abi → Option Bytes → Bool
true_in abi none = false
true_in abi (some []) = false
true_in abi (some (b ∷ bs)) = b == abi.ck_true

-- `template_says_token_object`: `sizeof (CK_BBOOL)` is 1.
unfoldable pub says_token_object : Abi → Template → Bool
says_token_object abi t = t.value_len == 1 && true_in abi t.p_value

-- The locals of the loop.
pub record Search : Type 0 where
  pub object_class : ℕ
  pub have_class : Bool
  pub label_is_ours : Bool
  pub have_label : Bool
  pub have_identifier : Bool
  pub key_shaped : Bool
  pub distinguishing : ℕ

abbrev pub no_search : Search
no_search = record {
  object_class = 0;
  have_class = false;
  label_is_ours = false;
  have_label = false;
  have_identifier = false;
  key_shaped = true;
  distinguishing = 0;
}

abbrev read_class : Abi → Template → Option Bytes → Option ℕ
read_class abi t none = none
read_class abi t (some memory) =
    if t.value_len == abi.ulong_size
    then some (abi.read_ulong (take abi.ulong_size memory))
    else none

-- The class that the entry names, if its size is right.
unfoldable pub class_of : Abi → Template → Option ℕ
class_of abi t = read_class abi t t.p_value

abbrev issued : Abi → List Bytes → Template → Option Bytes → Bool
issued abi ids t none = false
issued abi ids t (some memory) =
    if t.value_len == abi.unavailable || t.value_len == 0
    then false
    else contains ids (take t.value_len memory)

-- The entry names the identifier of an object that the module has issued.
unfoldable pub known_id : Abi → Option (List Bytes) → Template → Bool
known_id abi none t = false
known_id abi (some ids) t = issued abi ids t t.p_value

abbrev set_class : Option ℕ → Search → Search
set_class none s = s
set_class (some c) s = record s { object_class = c; have_class = true }

-- The `switch` on the type of an entry: none where the function returns PORTAL_TEMPLATE_UNRELATED.
unfoldable pub read_entry : Abi → Option (List Bytes) → Search → Template → Option Search
read_entry abi ids s t =
    if same_attribute t.type_of Rv.class
    then some (set_class (class_of abi t) s)
    else if same_attribute t.type_of Rv.label
    then some (record s { have_label = true; label_is_ours = names_our_label abi t })
    else if same_attribute t.type_of Rv.id
    then (if known_id abi ids t then some (record s { have_identifier = true }) else none)
    else some s

unfoldable pub is_key_shaped : Template → Bool
is_key_shaped t =
    same_attribute t.type_of Rv.class
    || (same_attribute t.type_of Rv.sign || same_attribute t.type_of Rv.decrypt)

unfoldable pub is_skipped : Abi → Template → Bool
is_skipped abi t = same_attribute t.type_of Rv.token && says_token_object abi t

abbrev shape : Template → Search → Search
shape t s = if is_key_shaped t then s else record s { key_shaped = false }

-- One round of the loop.
unfoldable pub search_round : Abi → Option (List Bytes) → Search → Template → Option Search
search_round abi ids s t = if is_skipped abi t then some s else do
  s' ← read_entry abi ids (record s { distinguishing = suc s.distinguishing }) t
  some (shape t s')

unfoldable pub search_loop : Abi → Option (List Bytes) → Search → List Template → Option Search
search_loop abi ids s [] = some s
search_loop abi ids s (t ∷ ts) = do s' ← search_round abi ids s t; search_loop abi ids s' ts

unfoldable pub conclusion : Abi → Search → Intent
conclusion abi s =
    if s.have_label
    then (if s.label_is_ours then names_credential else unrelated)
    else if s.have_identifier
    then names_credential
    else if s.have_class && (s.object_class == abi.cko_private_key && s.key_shaped)
    then names_credential
    else if s.distinguishing == 0
    then enumerates
    else if s.distinguishing == 1
        && (s.have_class
            && (s.object_class == abi.cko_certificate || s.object_class == abi.cko_public_key))
    then enumerates
    else unrelated

abbrev conclude_search : Abi → Option Search → Intent
conclude_search abi none = unrelated
conclude_search abi (some s) = conclusion abi s

-- `portal_template_intent`. A template that is NULL is `none`, with its count.
unfoldable pub template_intent : Abi → Option (List Template) → ℕ → Option (List Bytes) → Intent
template_intent abi none count ids = if count == 0 then enumerates else unrelated
template_intent abi (some []) count ids = enumerates
template_intent abi (some (t ∷ ts)) count ids =
    conclude_search abi (search_loop abi ids no_search (t ∷ ts))

-- `portal_template_wants_credential`, with the environment variable's test as an argument.
unfoldable pub wants_credential :
    Abi → Option (List Template) → ℕ → Option (List Bytes) → Bool → Bool → Bool
wants_credential abi templ count ids enumerate environment =
    elim (template_intent abi templ count ids) [
      | names_credential ↦ true
      | enumerates ↦ enumerate || environment
      | unrelated ↦ false
    ]
