-- ===== src/Contracts/Dicts.antt =====
-- Python dictionaries that hold JSON.
use lhgp.Prelude.{◌≡◌, refl, false, Option, none, some, ◌==◌, nat_eq, if◌then◌else◌, arith, is_some}
use lhgp.Contracts.Policies.{Ident, Json, Items, Fields}

-- `node.get(key)`
unfoldable pub get : Ident → Fields → Option Json
get key Fields.end = none
get key (Fields.field k v fs) = if k == key then some v else get key fs

-- `node[key] = value`; a key that is there keeps its place.
unfoldable pub put : Ident → Json → Fields → Fields
put key value Fields.end = Fields.field key value Fields.end
put key value (Fields.field k v fs) =
    if k == key then Fields.field k value fs else Fields.field k v (put key value fs)

-- `node.setdefault(key, value)`
unfoldable pub set_default : Ident → Json → Fields → Fields
unfolding get put
set_default key value fs = if is_some (get key fs) then fs else put key value fs

-- Python's truth of a value that is there: null, `False`, 0 and what is empty do not count.
abbrev pub as_true : Option Json → Option Json
as_true none = none
as_true (some Json.null) = none
as_true (some (Json.bool b)) = if b then some (Json.bool b) else none
as_true (some (Json.num n)) = if n == 0 then none else some (Json.num n)
as_true (some (Json.text x)) = if x == 0 then none else some (Json.text x)
as_true (some (Json.arr Items.nil)) = none
as_true (some (Json.obj Fields.end)) = none
as_true (some v) = some v

pub get-put :
    (key k : Ident) (v : Json) (fs : Fields)
    → get key (put k v fs) ≡ (if k == key then some v else get key fs)
unfolding get put
get-put key k v Fields.end = refl
get-put key k v (Fields.field j w fs) = ground (arith, get-put key k v fs)

pub get-set_default :
    (key k : Ident) (v : Json) (fs : Fields)
    → (k == key) ≡ false
    → get key (set_default k v fs) ≡ get key fs
unfolding set_default
get-set_default key k v fs other = ground (arith, get-put key k v fs)
