-- ===== src/Core/Value/Laws.antt =====
-- markdown/codec.go: valuesEqual on a value and itself.
use micawber.Go.Text.{equal_iff, equal}
use micawber.Prelude.{
  [], ◌&&◌, refl, arith, ◌∷◌, false, some, ◌||◌, true, ◌≡◌, Bool, ℕ, List, Bytes,
}
use micawber.Core.Value.{
  HaveNoNan, AreNanFree, HasNoNan, IsNanFree, Value, Values, Fields, FieldsList, null, bool, text,
  float, time, other, texts, list, object, objects, nil, cons, end, field, no_more, one_more,
  IsGoValue, AreGoValues, IsGoMap, AreGoMaps, bool_eq, values_equal, all_equal, entries_equal,
  maps_equal, fields_equal, is_nan, float_eq, lookup, has_key, texts_equal,
}

bool_eq_refl : (b : Bool) → bool_eq b b ≡ true
unfolding bool_eq
bool_eq_refl true = refl
bool_eq_refl false = refl

equal_refl : (s : Bytes) → equal s s ≡ true
equal_refl s = (equal_iff s s).1 refl

texts_equal_refl : (ts : List Bytes) → texts_equal ts ts ≡ true
unfolding texts_equal
texts_equal_refl [] = refl
texts_equal_refl (t ∷ ts) = rw (equal_refl t, texts_equal_refl ts)

float_eq_refl : (f : ℕ) → (float_eq f f || (is_nan f && is_nan f)) ≡ true
float_eq_refl f = ground arith

-- Every entry of the first map is found in the second.
abbrev Agrees : Fields → Fields → Type 0
Agrees end gs = Unit
Agrees (field k v fs) gs = (lookup k gs ≡ some v) × Agrees fs gs

Agrees-field :
    (k : Bytes) (v : Value) (fs gs : Fields)
    → has_key k fs ≡ false
    → Agrees fs gs
    → Agrees fs (field k v gs)
unfolding lookup
Agrees-field k v end gs fresh h = tt
Agrees-field k v (field j w fs) gs fresh h =
    (ground (arith, h.0, equal_iff j k, equal_iff k j), Agrees-field k v fs gs (ground arith) h.1)

pub Agrees-refl : (fs : Fields) → IsGoMap fs → Agrees fs fs
unfolding lookup
Agrees-refl end h = tt
Agrees-refl (field k v fs) h = (rw (equal_refl k), Agrees-field k v fs fs h.0 (Agrees-refl fs h.2))

mutual
  unfolding values_equal

  values_equal_refl : (v : Value) → IsGoValue v → IsNanFree v → values_equal v v ≡ true
  values_equal_refl null h n = refl
  values_equal_refl (bool b) h n = bool_eq_refl b
  values_equal_refl (text s) h n = equal_refl s
  values_equal_refl (float f) h n = float_eq_refl f
  values_equal_refl (time t) h n = equal_refl t
  values_equal_refl (other a s nan) h n = rw (equal_refl a, equal_refl s, n)
  values_equal_refl (texts ts) h n = texts_equal_refl ts
  values_equal_refl (list vs) h n = all_equal_refl vs h n
  values_equal_refl (object fs) h n =
      ground (arith, entries_equal_refl fs h n fs (Agrees-refl fs h))
  values_equal_refl (objects fss) h n = maps_equal_refl fss h n

  all_equal_refl : (vs : Values) → AreGoValues vs → AreNanFree vs → all_equal vs vs ≡ true
  all_equal_refl nil h n = refl
  all_equal_refl (cons v vs) h n = rw (values_equal_refl v h.0 n.0, all_equal_refl vs h.1 n.1)

  entries_equal_refl :
      (fs : Fields)
      → IsGoMap fs
      → HasNoNan fs
      → (gs : Fields) → Agrees fs gs
      → entries_equal fs gs ≡ true
  entries_equal_refl end h n gs a = refl
  entries_equal_refl (field k v fs) h n gs a =
      rw (a.0, values_equal_refl v h.1 n.0, entries_equal_refl fs h.2 n.1 gs a.1)

  maps_equal_refl : (fss : FieldsList) → AreGoMaps fss → HaveNoNan fss → maps_equal fss fss ≡ true
  maps_equal_refl no_more h n = refl
  maps_equal_refl (one_more fs fss) h n =
      ground
        (arith, entries_equal_refl fs h.0 n.0 fs (Agrees-refl fs h.0), maps_equal_refl fss h.1 n.1)

-- A field map equals itself in the sense of fieldsEqual, a NaN in a float64 and all, unless there is
-- one in a value that only reflect.DeepEqual looks into.
pub fields_equal_refl : (fs : Fields) → IsGoMap fs → HasNoNan fs → fields_equal fs fs ≡ true
unfolding fields_equal
fields_equal_refl end h n = refl
fields_equal_refl (field k v fs) h n = values_equal_refl (object (field k v fs)) h n
