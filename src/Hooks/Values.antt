-- ===== src/Hooks/Values.antt =====
-- A settings file as Python's `json` reads it. A dict keeps the order of its keys, each of which it
-- has once; an assignment to a new key goes to the end. A number is its literal.
use diecast.Prelude.{
  ◌≡◌, refl, Bool, false, Option, none, some, Text, text_eq, text_eq_iff, if◌then◌else◌, arith,
}

mutual
  pub data Json : Type 0 where
    null : Json
    boolean : Bool → Json
    number : Text → Json
    text : Text → Json
    array : Items → Json
    object : Fields → Json

  pub data Items : Type 0 where
    nil : Items
    item : Json → Items → Items

  pub data Fields : Type 0 where
    end : Fields
    field : Text → Json → Fields → Fields

-- `d.get(k)`
unfoldable pub get : Text → Fields → Option Json
get k end = none
get k (field j v d) = if text_eq j k then some v else get k d

-- `d[k] = v`
unfoldable pub put : Text → Json → Fields → Fields
put k v end = field k v end
put k v (field j w d) = if text_eq j k then field j v d else field j w (put k v d)

-- `del d[k]`, of the one entry that there is
unfoldable pub remove : Text → Fields → Fields
remove k end = end
remove k (field j v d) = let rest = remove k d in if text_eq j k then rest else field j v rest

-- `l.append(v)`
unfoldable pub append : Items → Json → Items
append nil v = item v nil
append (item w l) v = item w (append l v)

pub get-put :
    (j k : Text) (v : Json) (d : Fields)
    → get j (put k v d) ≡ (if text_eq k j then some v else get j d)
unfolding get put
get-put j k v end = refl
get-put j k v (field i w d) =
    ground (arith, text_eq_iff k j, text_eq_iff i k, text_eq_iff i j, get-put j k v d)

pub get-remove :
    (j k : Text) (d : Fields) → get j (remove k d) ≡ (if text_eq k j then none else get j d)
unfolding get remove
get-remove j k end = ground arith
get-remove j k (field i w d) =
    ground (arith, text_eq_iff k j, text_eq_iff i k, text_eq_iff i j, get-remove j k d)

remove-none : (k : Text) (d : Fields) → get k d ≡ none → remove k d ≡ d
unfolding get remove
remove-none k end h = refl
remove-none k (field i w d) h = ground (arith, remove-none k d)

pub put-put_self : (k : Text) (v w : Json) (d : Fields) → put k v (put k w d) ≡ put k v d
unfolding put
put-put_self k v w end = ground (arith, text_eq_iff k k)
put-put_self k v w (field i u d) = ground (arith, text_eq_iff i k, put-put_self k v w d)

pub put-get_self : (k : Text) (v : Json) (d : Fields) → get k d ≡ some v → put k v d ≡ d
unfolding put get
put-get_self k v end h = ground arith
put-get_self k v (field i u d) h = ground (arith, put-get_self k v d)

pub remove-put_new : (k : Text) (v : Json) (d : Fields) → get k d ≡ none → remove k (put k v d) ≡ d
unfolding put get remove
remove-put_new k v end h = ground (arith, text_eq_iff k k)
remove-put_new k v (field i u d) h = ground (arith, remove-put_new k v d, remove-none k d)

-- At two keys, one of which the dict has, the order of two assignments does not show.
pub put-put_ne :
    (j k : Text) (v w u : Json) (d : Fields)
    → text_eq j k ≡ false
    → get j d ≡ some u
    → put j v (put k w d) ≡ put k w (put j v d)
unfolding put get
put-put_ne j k v w u end h e = ground arith
put-put_ne j k v w u (field i x d) h e =
    ground (arith, text_eq_iff i j, text_eq_iff i k, text_eq_iff j k, put-put_ne j k v w u d h)

pub remove-put_ne :
    (j k : Text) (w : Json) (d : Fields)
    → text_eq j k ≡ false
    → remove j (put k w d) ≡ put k w (remove j d)
unfolding put remove
remove-put_ne j k w end h = ground (arith, text_eq_iff k j, text_eq_iff j k)
remove-put_ne j k w (field i x d) h = ground (
  arith,
  text_eq_iff i j,
  text_eq_iff i k,
  text_eq_iff j k,
  text_eq_iff k j,
  remove-put_ne j k w d h,
)
