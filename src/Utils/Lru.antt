-- ===== src/Utils/Lru.antt =====
-- utils/lru/lru.go: the strings that were used last. `items` has an entry for each string of `list`, at
-- its element, and no other, since `GetOrAdd` adds to and takes from both together; so `list`, from the
-- front, stands for both. `GetOrAdd` holds the lock throughout. `none` is a panic.
pub mod Recency
mod Tests
use framer.Base.{
  ℕ, zero, suc, Bytes, List, [], ◌∷◌, Option, none, some, Bool, true, false, ◌||◌, if◌then◌else◌,
  ltb, leb, length,
}
use framer.Datasource.Middleware.{eq_bytes}

-- `LRU`
pub record Lru : Type 0 where
  pub max_size : ℕ
  pub list : List Bytes

-- `New`
unfoldable pub new_lru : ℕ → Option Lru
new_lru max_size = if ltb max_size 1 then none else some (record { max_size = max_size; list = [] })

-- Whether `items` has the key.
abbrev pub has : Bytes → List Bytes → Bool
has k [] = false
has k (x ∷ xs) = eq_bytes x k || has k xs

-- The list without the element of a key.
abbrev pub unlink : Bytes → List Bytes → List Bytes
unlink k [] = []
unlink k (x ∷ xs) = if eq_bytes x k then xs else x ∷ unlink k xs

-- The list without its last element.
abbrev pub drop_back : List Bytes → List Bytes
drop_back [] = []
drop_back (x ∷ []) = []
drop_back (x ∷ y ∷ xs) = x ∷ drop_back (y ∷ xs)

-- `GetOrAdd`: what it returns, and the cache afterwards.
unfoldable pub get_or_add : Lru → Bytes → Bytes × Lru
get_or_add l k =
    if has k l.list
    then (k, record l { list = k ∷ unlink k l.list })
    else let kept = if leb l.max_size (length l.list) then drop_back l.list else l.list in
      (k, record l { list = k ∷ kept })
