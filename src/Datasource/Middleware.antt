-- ===== src/Datasource/Middleware.antt =====
-- datasource/meta_middleware.go: which metadata of a request goes out, and the fields that every
-- request has. A string is its bytes. `WriteAdditional` is the list of fields that it writes.
pub mod Fields
use framer.Base.{
  ℕ, Bytes, List, [], ◌∷◌, ◌++◌, Option, none, some, Bool, true, false, if◌then◌else◌, ◌==◌, ◌||◌,
  not, codes,
}

abbrev pub Field : Type 0
Field = Bytes × Bytes

-- `MetaMiddleware`
pub record MetaMiddleware : Type 0 where
  pub is_allowed : Bytes → Bool
  pub additional : List Field

-- `noopMiddleware`
abbrev pub noop_middleware : MetaMiddleware
noop_middleware = record { is_allowed = λ _. true; additional = [] }

-- `defaultMiddleware`; its two slices of alternating names and values are lists of fields.
pub record DefaultMiddleware : Type 0 where
  pub static_pseudo : List Field
  pub static_regular : List Field
  pub next : MetaMiddleware

-- `strings.HasPrefix(k, ":")`
abbrev pub has_colon : Bytes → Bool
has_colon [] = false
has_colon (c ∷ k) = c == b':'

-- The equality of two strings.
abbrev pub eq_bytes : Bytes → Bytes → Bool
eq_bytes [] [] = true
eq_bytes (x ∷ xs) (y ∷ ys) = if x == y then eq_bytes xs ys else false
eq_bytes _ _ = false

-- The loop of `newDefaultMiddleware`; a name without a value is an index out of range.
pub add_headers : DefaultMiddleware → List Bytes → Option DefaultMiddleware
add_headers m [] = some m
add_headers m (k ∷ []) = none
add_headers m (k ∷ v ∷ rest) =
    add_headers
      (if has_colon k
        then record m { static_pseudo = m.static_pseudo ++ (k, v) ∷ [] }
        else record m { static_regular = m.static_regular ++ (k, v) ∷ [] })
      rest

-- The value that `newDefaultMiddleware` begins with. Its parameter `next` is not used.
abbrev pub default_middleware : DefaultMiddleware
default_middleware = record {
  static_pseudo = (codes ":method", codes "POST") ∷ (codes ":scheme", codes "http") ∷ [];
  static_regular =
      (codes "content-type", codes "application/grpc") ∷ (codes "te", codes "trailers") ∷ [];
  next = noop_middleware;
}

-- `newDefaultMiddleware`
unfoldable pub new_default_middleware : MetaMiddleware → List Bytes → Option DefaultMiddleware
unfolding add_headers
new_default_middleware next additional_headers = add_headers default_middleware additional_headers

-- `defaultMiddleware.IsAllowed`
pub is_allowed : DefaultMiddleware → Bytes → Bool
is_allowed m [] = false
is_allowed m (c ∷ k) =
    if c == b':'
    then false
    else if eq_bytes (c ∷ k) (codes "content-type")
        || (eq_bytes (c ∷ k) (codes "te") || eq_bytes (c ∷ k) (codes "grpc-timeout"))
    then false
    else m.next.is_allowed (c ∷ k)

-- `defaultMiddleware.WriteAdditional`
pub write_additional : DefaultMiddleware → List Field
write_additional m = m.static_pseudo ++ (m.next.additional ++ m.static_regular)

-- A `defaultMiddleware` as a `MetaMiddleware`.
unfoldable pub as_middleware : DefaultMiddleware → MetaMiddleware
unfolding is_allowed write_additional
as_middleware m = record { is_allowed = is_allowed m; additional = write_additional m }
