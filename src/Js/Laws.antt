-- ===== src/Js/Laws.antt =====
-- The laws of property access, spread and `shallowEqual`.
use papercrate.Base.{
  ◌≤◌, ◌<◌, suc, Bool-cases, inl, inr, ◌≡◌, String, arith, eq_iff, eq_refl, false, if◌then◌else◌,
  List, [], ◌∷◌, refl, true, ◌==◌, ◌||◌, ◌∙◌,
}
use papercrate.Js.{
  count_keys, agrees, shallow_equal, Value, Fields, undefined, null, boolean, number, text, array,
  object, end, field, object_is, get, has_own, assign, spread, texts, from_texts,
}

pub get-assign :
    (k j : String) (v : Value) (f : Fields) → get j (assign k v f) ≡ (if k == j then v else get j f)
unfolding get assign
get-assign k j v end = refl
get-assign k j v (field i w f) =
    ground (arith, eq_iff k j, eq_iff i k, eq_iff i j, get-assign k j v f)

pub has_own-assign :
    (k j : String) (v : Value) (f : Fields) → has_own j (assign k v f) ≡ (k == j || has_own j f)
unfolding has_own assign
has_own-assign k j v end = refl
has_own-assign k j v (field i w f) =
    ground (arith, eq_iff k j, eq_iff i k, eq_iff i j, has_own-assign k j v f)

pub has_own-spread :
    (j : String) (a b : Fields) → has_own j (spread a b) ≡ (has_own j a || has_own j b)
unfolding has_own spread
has_own-spread j a end = ground arith
has_own-spread j a (field k v f) =
    has_own-spread j (assign k v a) f ∙ ground (arith, has_own-assign k j v a)

-- An object's keys are single.
abbrev pub IsObject : Fields → Type 0
IsObject end = Unit
IsObject (field k v f) = (has_own k f ≡ false) × IsObject f

pub assign-IsObject : (k : String) (v : Value) (f : Fields) → IsObject f → IsObject (assign k v f)
unfolding assign has_own
assign-IsObject k v end h = ground arith
assign-IsObject k v (field j w f) h =
    ground (arith, eq_iff j k, eq_iff k j, has_own-assign k j v f, assign-IsObject k v f)

pub spread-IsObject : (a b : Fields) → IsObject a → IsObject (spread a b)
unfolding spread
spread-IsObject a end h = h
spread-IsObject a (field k v f) h = spread-IsObject (assign k v a) f (assign-IsObject k v a h)

pub get_missing : (k : String) (f : Fields) → has_own k f ≡ false → get k f ≡ undefined
unfolding get has_own
get_missing k end h = refl
get_missing k (field j v f) h = ground (arith, get_missing k f)

pub has_own_of_get : (k s : String) (f : Fields) → get k f ≡ text s → has_own k f ≡ true
unfolding get has_own
has_own_of_get k s end h = cc
has_own_of_get k s (field j v f) h = ground (arith, has_own_of_get k s f)

-- The right object's properties win, the left one's others stay.
pub get-spread :
    (k : String) (a b : Fields)
    → IsObject b
    → get k (spread a b) ≡ (if has_own k b then get k b else get k a)
unfolding spread get has_own
get-spread k a end h = refl
get-spread k a (field j v f) h =
    get-spread k (assign j v a) f h.1 ∙ ground (arith, get-assign j k v a, eq_iff j k)

pub object_is_refl : (v : Value) → object_is v v ≡ true
unfolding object_is
object_is_refl undefined = refl
object_is_refl null = refl
object_is_refl (boolean true) = refl
object_is_refl (boolean false) = refl
object_is_refl (number n) = ground arith
object_is_refl (text s) = eq_refl s
object_is_refl (array i xs) = ground arith
object_is_refl (object i f) = ground arith

pub texts-from_texts : (ss : List String) → texts (from_texts ss) ≡ ss
unfolding texts from_texts
texts-from_texts [] = refl
texts-from_texts (s ∷ ss) = cc (texts-from_texts ss)

count_keys-assign :
    (k : String) (v : Value) (f : Fields)
    → count_keys (assign k v f) ≡ (if has_own k f then count_keys f else suc (count_keys f))
unfolding count_keys assign has_own
count_keys-assign k v end = refl
count_keys-assign k v (field j w f) = ground (arith, eq_iff j k, count_keys-assign k v f)

pub count_keys-spread : (a b : Fields) → count_keys a ≤ count_keys (spread a b)
unfolding spread
count_keys-spread a end = omega arith
count_keys-spread a (field k v f) =
    ground (arith, count_keys-spread (assign k v a) f, count_keys-assign k v a)

-- A property that is new to the left object makes the result larger.
pub count_keys-spread_new :
    (k : String) (a b : Fields)
    → has_own k b ≡ true
    → has_own k a ≡ false
    → count_keys a < count_keys (spread a b)
unfolding spread has_own
count_keys-spread_new k a end h n = cc
count_keys-spread_new k a (field j v f) h n = ground (
  arith,
  eq_iff j k,
  count_keys-spread (assign j v a) f,
  count_keys-assign j v a,
  has_own-assign j k v a,
  count_keys-spread_new k (assign j v a) f,
)

agrees-get :
    (k : String) (a b : Fields)
    → agrees a b ≡ true
    → has_own k a ≡ true
    → object_is (get k a) (get k b) ≡ true
unfolding agrees has_own get
agrees-get k end b h o = cc
agrees-get k (field j v f) b h o = ground (arith, eq_iff j k, agrees-get k f b)

-- `shallowEqual` of an object and of a copy that was spread over finds no property of the copied
-- one that is new or another.
pub shallow_equal-spread :
    (k : String) (a b : Fields)
    → shallow_equal a (spread a b) ≡ true
    → has_own k b ≡ true
    → IsObject b
    → object_is (get k a) (get k b) ≡ true
unfolding shallow_equal
shallow_equal-spread k a b h o n = elim (Bool-cases (has_own k a)) [
  | inl old ↦
      let e = agrees-get k a (spread a b) (ground arith) old in
      let g : get k (spread a b) ≡ get k b = get-spread k a b n ∙ rw o in rw g at e
  | inr new ↦ absurd (ground (arith, count_keys-spread_new k a b))
]

-- A copy `{ ...f }` reads as `f`.
pub copy-get : (k : String) (f : Fields) → IsObject f → get k (spread end f) ≡ get k f
copy-get k f h = elim (Bool-cases (has_own k f)) [
  | inl own ↦ get-spread k end f h ∙ rw own
  | inr not_own ↦ get-spread k end f h ∙ rw (not_own, get_missing k f not_own) (unfold get in refl)
]

-- Spreading over the object itself or over a changed copy reads as the right one, where the right
-- one has what the left one has or reads alike there.
pub get-spread_same :
    (k : String) (a b : Fields)
    → IsObject b
    → (has_own k b ≡ false → get k a ≡ get k b)
    → get k (spread a b) ≡ get k b
get-spread_same k a b h e = elim (Bool-cases (has_own k b)) [
  | inl own ↦ get-spread k a b h ∙ rw own
  | inr not_own ↦ get-spread k a b h ∙ rw not_own (e not_own)
]
