-- ===== src/Property.antt =====
-- drmproperty.h and drmproperty.cpp, and DrmDevice::GetProperty of drmdevice.cpp: the properties
-- that the kernel reports for a plane, a CRTC or a connector.
use Prim.Native.String.{String}
use text.Mathlib.Text.{◌==◌ as str_eq}
use drm_hwcomposer.Base.{
  ℕ, Bool, true, false, Option, none, some, List, [], ◌∷◌, ◌++◌, ℤ, pos, enoent, enodev, einval,
  if◌then◌else◌, leb, has_bit, null, length, get_elem?,
}

pub data PropertyType : Type 0 where
  int enum object blob invalid : PropertyType

-- `drmModePropertyRes`: what libdrm reports of a property. An enum entry is its value.
pub record RawProperty : Type 0 where
  pub name : String
  pub prop_id : ℕ
  pub flags : ℕ
  pub values : List ℕ
  pub enums : List ℕ
  pub blob_ids : List ℕ

pub record Property : Type 0 where
  pub id : ℕ
  pub kind : PropertyType
  pub flags : ℕ
  pub name : String
  pub value : ℕ
  pub values : List ℕ
  pub enums : List ℕ
  pub blob_ids : List ℕ

-- `DrmProperty() = default`.
abbrev pub no_property : Property
no_property = record {
  id = 0;
  kind = invalid;
  flags = 0;
  name = "";
  value = 0;
  values = [];
  enums = [];
  blob_ids = [];
}

-- The order of the flag tests: DRM_MODE_PROP_RANGE is bit 1, ENUM bit 3, BLOB bit 4. The extended
-- type DRM_MODE_PROP_OBJECT is 1 << 6, so its test is one of bit 6.
unfoldable pub type_of_flags : PropertyType → ℕ → PropertyType
type_of_flags old flags =
    if has_bit flags 1
    then int
    else if has_bit flags 3
    then enum
    else if has_bit flags 6
    then object
    else if has_bit flags 4
    then blob
    else old

-- DrmProperty::Init adds to the vectors: it does not clear them.
unfoldable pub init : Property → RawProperty → ℕ → Property
unfolding type_of_flags
init p raw value = record p {
  id = raw.prop_id;
  kind = type_of_flags p.kind raw.flags;
  flags = raw.flags;
  name = raw.name;
  value = value;
  values = p.values ++ raw.values;
  enums = p.enums ++ raw.enums;
  blob_ids = p.blob_ids ++ raw.blob_ids;
}

-- The value of an enum is an index into its entries.
abbrev enum_value : Option ℕ → ℤ × ℕ
enum_value none = (enoent, 0)
enum_value (some v) = (pos 0, v)

value_by_kind : PropertyType → Property → ℤ × ℕ
value_by_kind int p = (pos 0, p.value)
value_by_kind enum p =
    if leb (length p.enums) p.value then (enoent, 0) else enum_value (get_elem? p.enums p.value)
value_by_kind object p = (pos 0, p.value)
value_by_kind blob p = (einval, 0)
value_by_kind invalid p = (einval, 0)

abbrev is_blob : PropertyType → Bool
is_blob blob = true
is_blob _ = false

-- DrmProperty::value. A failed call leaves its out-parameter; the 0 beside an error is not read.
unfoldable pub value : Property → ℤ × ℕ
unfolding value_by_kind
value p =
    if is_blob p.kind
    then (pos 0, p.value)
    else if null p.values
    then (enoent, 0)
    else value_by_kind p.kind p

-- `drmModeObjectGetProperties`: the properties of an object with their values, or NULL.
abbrev pub ObjectProperties : Type 0
ObjectProperties = Option (List (RawProperty × ℕ))

find_property : String → List (RawProperty × ℕ) → Property → ℤ × Property
unfolding init
find_property prop_name [] property = (enoent, property)
find_property prop_name ((raw, v) ∷ props) property =
    let rest = find_property prop_name props property in
    if str_eq raw.name prop_name then (pos 0, init property raw v) else rest

unfoldable pub get_property : ObjectProperties → String → Property → ℤ × Property
unfolding find_property
get_property none prop_name property = (enodev, property)
get_property (some props) prop_name property = find_property prop_name props property
