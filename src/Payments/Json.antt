-- ===== src/Payments/Json.antt =====
-- `_jsonable` of django_app/apps/payments/services.py. A value of Python is a dict, a list, a tuple,
-- a scalar, or an object of an SDK, of which `_jsonable` reads only its text `str(value)`.
use ecommerce.Prelude.{◌≡◌, refl, ap, &&-eq_true, Bool, true, false, ◌&&◌, String, arith}
use ecommerce.Prelude.Int.{ℤ}

mutual
  pub data Value : Type 0 where
    null : Value
    bool : Bool → Value
    int : ℤ → Value
    float : String → Value
    str : String → Value
    object : String → Value
    dict : Entries → Value
    list : Values → Value
    tuple : Values → Value

  pub data Values : Type 0 where
    nil : Values
    cons : Value → Values → Values

  pub data Entries : Type 0 where
    end : Entries
    entry : String → Value → Entries → Entries

unfoldable mutual
  pub jsonable : Value → Value
  jsonable null = null
  jsonable (bool b) = bool b
  jsonable (int n) = int n
  jsonable (float t) = float t
  jsonable (str t) = str t
  jsonable (object t) = str t
  jsonable (dict e) = dict (jsonable_entries e)
  jsonable (list v) = list (jsonable_values v)
  jsonable (tuple v) = list (jsonable_values v)

  pub jsonable_values : Values → Values
  jsonable_values nil = nil
  jsonable_values (cons x xs) = cons (jsonable x) (jsonable_values xs)

  pub jsonable_entries : Entries → Entries
  jsonable_entries end = end
  jsonable_entries (entry k x e) = entry k (jsonable x) (jsonable_entries e)

-- A value that JSON can write: no tuple and no object of an SDK, however deep.
unfoldable mutual
  pub is_json : Value → Bool
  is_json null = true
  is_json (bool b) = true
  is_json (int n) = true
  is_json (float t) = true
  is_json (str t) = true
  is_json (object t) = false
  is_json (dict e) = are_json_entries e
  is_json (list v) = are_json v
  is_json (tuple v) = false

  pub are_json : Values → Bool
  are_json nil = true
  are_json (cons x xs) = is_json x && are_json xs

  pub are_json_entries : Entries → Bool
  are_json_entries end = true
  are_json_entries (entry k x e) = is_json x && are_json_entries e

mutual
  unfolding jsonable jsonable_values jsonable_entries is_json are_json are_json_entries

  pub is_json-jsonable_value : (x : Value) → is_json (jsonable x) ≡ true
  is_json-jsonable_value null = refl
  is_json-jsonable_value (bool b) = refl
  is_json-jsonable_value (int n) = refl
  is_json-jsonable_value (float t) = refl
  is_json-jsonable_value (str t) = refl
  is_json-jsonable_value (object t) = refl
  is_json-jsonable_value (dict e) = are_json_entries-jsonable_entries e
  is_json-jsonable_value (list v) = are_json-jsonable_values v
  is_json-jsonable_value (tuple v) = are_json-jsonable_values v

  pub are_json-jsonable_values : (v : Values) → are_json (jsonable_values v) ≡ true
  are_json-jsonable_values nil = refl
  are_json-jsonable_values (cons x xs) = rw (is_json-jsonable_value x) (are_json-jsonable_values xs)

  pub are_json_entries-jsonable_entries :
      (e : Entries) → are_json_entries (jsonable_entries e) ≡ true
  are_json_entries-jsonable_entries end = refl
  are_json_entries-jsonable_entries (entry k x e) =
      rw (is_json-jsonable_value x) (are_json_entries-jsonable_entries e)

mutual
  unfolding jsonable jsonable_values jsonable_entries is_json are_json are_json_entries

  pub jsonable_fixed : (x : Value) → is_json x ≡ true → jsonable x ≡ x
  jsonable_fixed null h = refl
  jsonable_fixed (bool b) h = refl
  jsonable_fixed (int n) h = refl
  jsonable_fixed (float t) h = refl
  jsonable_fixed (str t) h = refl
  jsonable_fixed (object t) h = absurd (ground arith)
  jsonable_fixed (dict e) h = ap dict (entries_fixed e h)
  jsonable_fixed (list v) h = ap list (values_fixed v h)
  jsonable_fixed (tuple v) h = absurd (ground arith)

  pub values_fixed : (v : Values) → are_json v ≡ true → jsonable_values v ≡ v
  values_fixed nil h = refl
  values_fixed (cons x xs) h =
      let (p, q) = &&-eq_true _ _ h in rw (jsonable_fixed x p, values_fixed xs q) refl

  pub entries_fixed : (e : Entries) → are_json_entries e ≡ true → jsonable_entries e ≡ e
  entries_fixed end h = refl
  entries_fixed (entry k x e) h =
      let (p, q) = &&-eq_true _ _ h in rw (jsonable_fixed x p, entries_fixed e q) refl

-- What `_jsonable` returns can be written as JSON, and it leaves what JSON can write as it is; so
-- the values it can return are exactly the JSON values.
pub is_json-jsonable :
    (x : Value)
    → (is_json (jsonable x) ≡ true)
      × ((is_json x ≡ true) → jsonable x ≡ x)
      × (jsonable (jsonable x) ≡ jsonable x)
is_json-jsonable x =
    let j = is_json-jsonable_value x in (j, jsonable_fixed x, jsonable_fixed (jsonable x) j)
