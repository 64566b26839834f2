-- ===== src/Core/Value.antt =====
-- The values that a front-matter decoder produces: Go's `any` in map[string]any.
pub mod Laws
use micawber.Prelude.{
  ◌≡◌, ◌==◌, ◌∷◌, some, ◌&&◌, ◌%◌, [], none, if◌then◌else◌, ◌||◌, length, not, ltb, any, Option,
  List, ℕ, Bool, true, false, Bytes,
}
use micawber.Go.Text.{equal}

-- A nil map and an empty one are the same here, as for `len`, look-up and `range`. A float64 is
-- its bit pattern. `other` is a value of any other type, by the name of the type and a text that
-- tells its values apart: int, int64, json.Number, a TOML local date, a map[any]any. The Boolean is
-- whether there is a NaN in it, which makes reflect.DeepEqual false of the value and its copy.
mutual
  pub data Value : Type 0 where
    null : Value
    bool : Bool → Value
    text : Bytes → Value
    float : ℕ → Value
    time : Bytes → Value
    other : Bytes → Bytes → Bool → Value
    texts : List Bytes → Value
    list : Values → Value
    object : Fields → Value
    objects : FieldsList → Value

  -- []any
  pub data Values : Type 0 where
    nil : Values
    cons : Value → Values → Values

  -- map[string]any, as a list of its entries
  pub data Fields : Type 0 where
    end : Fields
    field : Bytes → Value → Fields → Fields

  -- []map[string]any
  pub data FieldsList : Type 0 where
    no_more : FieldsList
    one_more : Fields → FieldsList → FieldsList

-- `v, ok := fields[key]`
unfoldable pub lookup : Bytes → Fields → Option Value
lookup k end = none
lookup k (field j v fs) = if equal j k then some v else lookup k fs

-- The keys, and `len(fields)`.
abbrev pub keys : Fields → List Bytes
keys end = []
keys (field k v fs) = k ∷ keys fs

abbrev pub is_end : Fields → Bool
is_end end = true
is_end (field k v fs) = false

abbrev pub has_key : Bytes → Fields → Bool
has_key k fs = any (λ j. equal j k) (keys fs)

-- The keys of a Go map are all different, at every depth.
abbrev mutual
  pub IsGoValue : Value → Type 0
  IsGoValue null = Unit
  IsGoValue (bool b) = Unit
  IsGoValue (text s) = Unit
  IsGoValue (float f) = Unit
  IsGoValue (time t) = Unit
  IsGoValue (other t s nan) = Unit
  IsGoValue (texts ts) = Unit
  IsGoValue (list vs) = AreGoValues vs
  IsGoValue (object fs) = IsGoMap fs
  IsGoValue (objects fss) = AreGoMaps fss

  pub AreGoValues : Values → Type 0
  AreGoValues nil = Unit
  AreGoValues (cons v vs) = IsGoValue v × AreGoValues vs

  pub IsGoMap : Fields → Type 0
  IsGoMap end = Unit
  IsGoMap (field k v fs) = (has_key k fs ≡ false) × IsGoValue v × IsGoMap fs

  pub AreGoMaps : FieldsList → Type 0
  AreGoMaps no_more = Unit
  AreGoMaps (one_more fs fss) = IsGoMap fs × AreGoMaps fss

-- At every depth, no value of another type holds a NaN.
abbrev mutual
  pub IsNanFree : Value → Type 0
  IsNanFree null = Unit
  IsNanFree (bool b) = Unit
  IsNanFree (text s) = Unit
  IsNanFree (float f) = Unit
  IsNanFree (time t) = Unit
  IsNanFree (other t s nan) = nan ≡ false
  IsNanFree (texts ts) = Unit
  IsNanFree (list vs) = AreNanFree vs
  IsNanFree (object fs) = HasNoNan fs
  IsNanFree (objects fss) = HaveNoNan fss

  pub AreNanFree : Values → Type 0
  AreNanFree nil = Unit
  AreNanFree (cons v vs) = IsNanFree v × AreNanFree vs

  pub HasNoNan : Fields → Type 0
  HasNoNan end = Unit
  HasNoNan (field k v fs) = IsNanFree v × HasNoNan fs

  pub HaveNoNan : FieldsList → Type 0
  HaveNoNan no_more = Unit
  HaveNoNan (one_more fs fss) = HasNoNan fs × HaveNoNan fss

-- NaN, and `==` on float64: the two zeros are equal, NaN is equal to nothing.
abbrev pub is_nan : ℕ → Bool
is_nan f = ltb 0x7FF0000000000000 (f % 0x8000000000000000)

abbrev float_eq : ℕ → ℕ → Bool
float_eq f g =
    not (is_nan f)
    && not (is_nan g)
    && (f == g || (f % 0x8000000000000000 == 0 && g % 0x8000000000000000 == 0))

texts_equal : List Bytes → List Bytes → Bool
texts_equal [] [] = true
texts_equal (x ∷ xs) (y ∷ ys) = equal x y && texts_equal xs ys
texts_equal _ _ = false

abbrev size : Fields → ℕ
size fs = length (keys fs)

bool_eq : Bool → Bool → Bool
bool_eq true b = b
bool_eq false b = not b

-- valuesEqual; reflect.DeepEqual where neither value is a container or a float.
unfoldable mutual
  unfolding texts_equal bool_eq lookup

  pub values_equal : Value → Value → Bool
  values_equal null null = true
  values_equal (bool a) (bool b) = bool_eq a b
  values_equal (text s) (text t) = equal s t
  values_equal (float f) (float g) = float_eq f g || (is_nan f && is_nan g)
  values_equal (time s) (time t) = equal s t
  values_equal (other a s nan) (other b t _) = equal a b && equal s t && not nan
  values_equal (texts xs) (texts ys) = texts_equal xs ys
  values_equal (list vs) (list ws) = all_equal vs ws
  values_equal (object fs) (object gs) = size fs == size gs && entries_equal fs gs
  values_equal (objects fss) (objects gss) = maps_equal fss gss
  values_equal _ _ = false

  pub all_equal : Values → Values → Bool
  all_equal nil nil = true
  all_equal (cons v vs) (cons w ws) = values_equal v w && all_equal vs ws
  all_equal _ _ = false

  -- Every entry of the first map is in the second.
  pub entries_equal : Fields → Fields → Bool
  entries_equal end gs = true
  entries_equal (field k v fs) gs =
      (elim (lookup k gs) [ none ↦ false | some w ↦ values_equal v w ]) && entries_equal fs gs

  pub maps_equal : FieldsList → FieldsList → Bool
  maps_equal no_more no_more = true
  maps_equal (one_more fs fss) (one_more gs gss) =
      (size fs == size gs && entries_equal fs gs) && maps_equal fss gss
  maps_equal _ _ = false

-- fieldsEqual.
unfoldable pub fields_equal : Fields → Fields → Bool
unfolding values_equal
fields_equal a b = if is_end a && is_end b then true else values_equal (object a) (object b)
