-- ===== src/Models/Json.antt =====
-- A `dict[str, Any]` column: an object of JSON, in the order of its keys.
use iceberg_sst.Prelude.{
  ℕ, String, Bool, true, false, not, Option, none, some, ◌==◌, nat_eq, string_eq, if◌then◌else◌,
}

mutual
  pub data Json : Type 0 where
    null : Json
    bool : Bool → Json
    num : ℕ → Json
    str : String → Json
    arr : Items → Json
    obj : Fields → Json

  pub data Items : Type 0 where
    nil : Items
    cons : Json → Items → Items

  pub data Fields : Type 0 where
    end : Fields
    field : String → Json → Fields → Fields

-- `d.get(key)`
unfoldable pub get_field : String → Fields → Option Json
get_field k end = none
get_field k (field j v fs) = if j == k then some v else get_field k fs

-- `d.get(key)` where it is a string, as `isinstance(d.get(key), str)` asks.
unfoldable pub get_str : String → Fields → Option String
unfolding get_field
get_str k fs = let v : Option Json = get_field k fs in elim v [ some (str s) ↦ some s | _ ↦ none ]

-- `d[key] = value`: a key that is there keeps its place.
unfoldable pub put_field : String → Json → Fields → Fields
put_field k v end = field k v end
put_field k v (field j w fs) = if j == k then field j v fs else field j w (put_field k v fs)

-- `{**d, **update}`
unfoldable pub merge_fields : (update d : Fields) → Fields
unfolding put_field
merge_fields end d = d
merge_fields (field k v fs) d = merge_fields fs (put_field k v d)

-- `bool(value)`
unfoldable pub is_truthy : Json → Bool
is_truthy null = false
is_truthy (bool b) = b
is_truthy (num n) = not (n == 0)
is_truthy (str s) = not (s == "")
is_truthy (arr nil) = false
is_truthy (arr (cons j js)) = true
is_truthy (obj end) = false
is_truthy (obj (field k v fs)) = true
