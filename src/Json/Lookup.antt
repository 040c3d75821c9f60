-- ===== src/Json/Lookup.antt =====
-- Looking up the fields of an object by `get`, `index` and `as_object`.
use agentic_development_fram.Base.{String, some, ◌≡◌, refl, ap}
use agentic_development_fram.Base.Map
use agentic_development_fram.Base.Map.{Map}
use agentic_development_fram.Json.Value.{
  Value, null, bool, number, string, array, object, Fields, field_list, as_object, get, index,
}

-- What `as_object` gives has the fields that `get` finds.
pub object-value :
    (v : Value) {entries : Map Value}
    → as_object v ≡ some entries
    → (name : String) → get v name ≡ Map.get name entries
unfolding get
object-value (object fs) e name = ap (Map.get name) (cc e)
object-value null e name = cc
object-value (bool b) e name = cc
object-value (number n) e name = cc
object-value (string s) e name = cc
object-value (array vs) e name = cc

pub index-get : (v : Value) (k : String) {w : Value} → get v k ≡ some w → index v k ≡ w
unfolding index
index-get v k e = rw (e, index) refl

pub as_object-value :
    (v : Value) {entries : Map Value}
    → as_object v ≡ some entries
    → (fs : Fields) × (v ≡ object fs) × (field_list fs ≡ entries)
as_object-value (object fs) e = (fs, refl, cc e)
as_object-value null e = cc
as_object-value (bool b) e = cc
as_object-value (number n) e = cc
as_object-value (string s) e = cc
as_object-value (array vs) e = cc
