-- ===== src/Delivery/Fields.antt =====
-- Reading a lock and a manifest: `required_lock_string`, `assert_exact_fields`, `required_string`
-- and the checks of texts of src/delivery.rs. An error is the fixed part of its message.
use Prim.Native.Char.{code}
use agentic_development_fram.Base.{
  ℕ, String, Bool, true, false, not, ◌&&◌, ◌||◌, List, [], ◌∷◌, ◌==◌, all, and_then, leb, nat_eq,
  strip_prefix, is_sha256_hex, Result, ok_or, guard, ◌>>=◌, if◌then◌else◌,
}
use agentic_development_fram.Base.Map
use agentic_development_fram.Base.Map.{Map}
use agentic_development_fram.Base.Map.Ascending.{keys_of}
use agentic_development_fram.Contracts.Scope.{member}
use agentic_development_fram.Json.Value.{Value, as_str, get}

unfoldable pub required_lock_string : Value → List String → Result String String
required_lock_string value [] = ok_or (as_str value) "Framework lock field must be a string"
required_lock_string value (field ∷ path) =
    ok_or (get value field) "Framework lock field is missing" >>= λ inner.
    required_lock_string inner path

-- The two sets have the same members.
abbrev pub same_set : List String → List String → Bool
same_set actual expected =
    all (λ s. member s expected) actual && all (λ s. member s actual) expected

unfoldable pub assert_exact_fields : Map Value → List String → Result String (Unit {0})
assert_exact_fields object expected =
    guard (same_set (keys_of object) expected) "fields are missing or unexpected"

unfoldable pub required_string : Map Value → String → Result String String
required_string object field = ok_or (and_then (Map.get field object) as_str) "must be a string"

unfoldable pub validate_sha256 : String → Result String (Unit {0})
validate_sha256 value = ok_or (strip_prefix value "sha256:") "must start with sha256:" >>= λ hex.
    guard (is_sha256_hex hex) "must contain 64 hexadecimal characters"

is_alphanumeric : ℕ → Bool
is_alphanumeric c =
    leb b'0' c && leb c b'9' || (leb b'a' c && leb c b'z' || leb b'A' c && leb c b'Z')

-- The characters of a release's name, after the first.
all_safe : String → Bool
all_safe String.[] = true
all_safe (String.◌∷◌ c s) =
    (is_alphanumeric (code c)
      || (nat_eq (code c) b'.' || (nat_eq (code c) b'_' || nat_eq (code c) b'-')))
    && all_safe s

unfoldable pub is_safe_release_id : String → Bool
unfolding is_alphanumeric all_safe
is_safe_release_id String.[] = false
is_safe_release_id (String.◌∷◌ c s) = is_alphanumeric (code c) && all_safe s

unfoldable pub assert_safe_release_id : String → Result String (Unit {0})
assert_safe_release_id value = guard (is_safe_release_id value) "unsafe Framework Release ID"

-- The parts of a path between its slashes, as `Path::components` reads it.
unfoldable pub split_path : String → List String
split_path String.[] = "" ∷ []
split_path (String.◌∷◌ c s) = elim (split_path s) [
  | [] ↦ []
  | part ∷ parts ↦ if nat_eq (code c) b'/' then "" ∷ part ∷ parts else (String.◌∷◌ c part) ∷ parts
]

-- A part after the first one is a `Normal` component, or skipped if it is empty or `.`; `..` is not.
unfoldable pub rest_is_normal : List String → Bool
rest_is_normal [] = true
rest_is_normal (part ∷ parts) = not (part == "..") && rest_is_normal parts

-- `validate_relative_path`: an absolute path has an empty first part, and a `.` at the start is a
-- component.
unfoldable pub is_relative_path : List String → Bool
is_relative_path [] = false
is_relative_path (part ∷ parts) =
    not (part == "") && (not (part == ".") && (not (part == "..") && rest_is_normal parts))

unfoldable pub validate_relative_path : String → Result String (Unit {0})
validate_relative_path relative =
    guard (is_relative_path (split_path relative)) "Framework Release path is not relative"
