-- ===== src/Json.antt =====
-- The JSON values of serde_json, as far as the program takes them apart and builds them. The number
-- type `N` is serde_json's own and stays a parameter, with the operations that the program uses.
-- The order of an object's keys is not modelled: an insertion under a key takes the place of the old.
use text.Mathlib.TextEquality.{eq_iff}
use julie_semantic_sidecar.Prelude.{
  ℕ, String, ◌≡◌, refl, Bool, List, [], ◌∷◌, Option, none, some, Result, str_eq, if◌then◌else◌,
  arith,
}

mutual
  pub data Value (N : Type 0) : Type 0 where
    null : Value N
    bool : Bool → Value N
    number : N → Value N
    string : String → Value N
    array : Items N → Value N
    object : Fields N → Value N

  pub data Items (N : Type 0) : Type 0 where
    nil : Items N
    item : Value N → Items N → Items N

  pub data Fields (N : Type 0) : Type 0 where
    end : Fields N
    field : String → Value N → Fields N → Fields N

-- What the program uses of serde_json and of its numbers.
pub record Serde (F N : Type 0) : Type 0 where
  pub of_usize : ℕ → N
  pub of_f32 : F → Value N
  -- `Number::as_f64() == Some(f64::from(v))`
  pub as_f64_is : ℕ → N → Bool
  pub from_str : String → Result (Value N) String
  pub to_string : Value N → Result String String
  -- `Display`
  pub show : Value N → String

module _ {N : Type 0} where
  -- `Map::get` and `Map::insert`.
  unfoldable pub get : String → Fields N → Option (Value N)
  get k end = none
  get k (field j v fs) = if str_eq j k then some v else get k fs

  unfoldable pub insert : String → Value N → Fields N → Fields N
  insert k v end = field k v end
  insert k v (field j w fs) = if str_eq j k then field k v fs else field j w (insert k v fs)

  pub get-insert :
      (k j : String) (v : Value N) (fs : Fields N)
      → get j (insert k v fs) ≡ (if str_eq k j then some v else get j fs)
  unfolding get insert
  get-insert k j v end = refl
  get-insert k j v (field i w fs) =
      ground (arith, eq_iff k j, eq_iff i k, eq_iff i j, get-insert k j v fs)

  abbrev pub elems : Items N → List (Value N)
  elems nil = []
  elems (item v vs) = v ∷ elems vs

  abbrev pub items : List (Value N) → Items N
  items [] = nil
  items (v ∷ vs) = item v (items vs)

  -- `json!([...])` and `json!({...})`.
  abbrev pub json_array : List (Value N) → Value N
  json_array vs = array (items vs)

  abbrev pub fields : List (String × Value N) → Fields N
  fields [] = end
  fields ((k, v) ∷ kvs) = field k v (fields kvs)

  abbrev pub json_object : List (String × Value N) → Value N
  json_object kvs = object (fields kvs)
