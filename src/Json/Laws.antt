-- ===== src/Json/Laws.antt =====
-- Laws of maps and of equality on values.
use centaur_context.Common.{both_true, ◌≡◌, refl, ap, Bool, true, false, some, arith, if◌then◌else◌}
use centaur_context.Common.Integer.{ℤ, eq_ℤ}
use centaur_context.Text.{Text, text_eq}
use centaur_context.Text.Laws.{text_eq_sound, text_eq_refl, text_eq_iff}
use centaur_context.Json.{
  Value, null, bool, int, float, string, array, object, Items, nil, cons, Fields, end, field, get,
  insert, value_eq, items_eq, fields_eq, bool_eq,
}

-- What a map holds at a key after an insertion.
pub get-insert :
    (j k : Text) (v : Value) (fs : Fields)
    → get j (insert k v fs) ≡ (if text_eq k j then some v else get j fs)
unfolding get insert
get-insert j k v end = refl
get-insert j k v (field i w fs) =
    ground (arith, text_eq_iff i k, text_eq_iff i j, text_eq_iff k j, get-insert j k v fs)

bool_eq_sound : (a b : Bool) → bool_eq a b ≡ true → a ≡ b
bool_eq_sound true true h = refl
bool_eq_sound false false h = refl
bool_eq_sound _ _ h = cc

int_eq_sound : (a b : ℤ) → eq_ℤ a b ≡ true → a ≡ b
int_eq_sound a b h = ground arith

mutual
  unfolding value_eq items_eq fields_eq

  value_eq_sound_at : (v w : Value) → value_eq v w ≡ true → v ≡ w
  value_eq_sound_at null null h = refl
  value_eq_sound_at (bool a) (bool b) h = ap bool (bool_eq_sound a b h)
  value_eq_sound_at (int m) (int n) h = ap int (int_eq_sound m n h)
  value_eq_sound_at (float s) (float t) h = ap float (text_eq_sound s t h)
  value_eq_sound_at (string s) (string t) h = ap string (text_eq_sound s t h)
  value_eq_sound_at (array xs) (array ys) h = ap array (items_eq_sound xs ys h)
  value_eq_sound_at (object fs) (object gs) h = ap object (fields_eq_sound fs gs h)
  value_eq_sound_at _ _ h = cc

  items_eq_sound : (xs ys : Items) → items_eq xs ys ≡ true → xs ≡ ys
  items_eq_sound nil nil h = refl
  items_eq_sound (cons v vs) (cons w ws) h =
      let (here, later) = both_true _ _ h in
      cc (value_eq_sound_at v w here, items_eq_sound vs ws later)
  items_eq_sound _ _ h = cc

  fields_eq_sound : (fs gs : Fields) → fields_eq fs gs ≡ true → fs ≡ gs
  fields_eq_sound end end h = refl
  fields_eq_sound (field j v fs) (field k w gs) h =
      let (front, later) = both_true _ _ h in
      let (key, here) = both_true _ _ front in
      cc (text_eq_sound j k key, value_eq_sound_at v w here, fields_eq_sound fs gs later)
  fields_eq_sound _ _ h = cc

mutual
  unfolding value_eq items_eq fields_eq

  value_eq_refl_at : (v : Value) → value_eq v v ≡ true
  value_eq_refl_at null = refl
  value_eq_refl_at (bool true) = refl
  value_eq_refl_at (bool false) = refl
  value_eq_refl_at (int m) = ground arith
  value_eq_refl_at (float s) = text_eq_refl s
  value_eq_refl_at (string s) = text_eq_refl s
  value_eq_refl_at (array xs) = items_eq_refl xs
  value_eq_refl_at (object fs) = fields_eq_refl fs

  items_eq_refl : (xs : Items) → items_eq xs xs ≡ true
  items_eq_refl nil = refl
  items_eq_refl (cons v vs) = rw (value_eq_refl_at v) (items_eq_refl vs)

  fields_eq_refl : (fs : Fields) → fields_eq fs fs ≡ true
  fields_eq_refl end = refl
  fields_eq_refl (field k v fs) = rw (text_eq_refl k, value_eq_refl_at v) (fields_eq_refl fs)

pub value_eq_sound : (v w : Value) → value_eq v w ≡ true → v ≡ w
value_eq_sound v w h = value_eq_sound_at v w h

pub value_eq_refl : (v : Value) → value_eq v v ≡ true
value_eq_refl v = value_eq_refl_at v
