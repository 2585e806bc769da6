-- ===== src/Datasource/Middleware/Fields.antt =====
-- The order of pseudo-header fields and the others.
use framer.Base.{
  ◌≡◌, refl, Bytes, List, [], ◌∷◌, ◌++◌, some, true, false, Bool-cases, All, All-append, arith, inl,
  inr, of_some, subst,
}
use framer.Datasource.Middleware.{
  Field, MetaMiddleware, DefaultMiddleware, noop_middleware, has_colon, add_headers,
  default_middleware, new_default_middleware, is_allowed,
}

abbrev pub IsPseudo : Field → Type 0
IsPseudo f = has_colon f.0 ≡ true

abbrev pub IsRegular : Field → Type 0
IsRegular f = has_colon f.0 ≡ false

-- A default middleware keeps the two kinds apart, and the one after it writes nothing.
pub record IsSorted (m : DefaultMiddleware) : Type 0 where
  pub pseudo : All IsPseudo m.static_pseudo
  pub regular : All IsRegular m.static_regular
  pub last : m.next ≡ noop_middleware

add_headers-IsSorted :
    (m m' : DefaultMiddleware) (hs : List Bytes)
    → IsSorted m
    → add_headers m hs ≡ some m'
    → IsSorted m'
unfolding add_headers
add_headers-IsSorted m m' [] s e = let h : m ≡ m' = of_some e in subst IsSorted h s
add_headers-IsSorted m m' (k ∷ []) s e = cc
add_headers-IsSorted m m' (k ∷ v ∷ rest) s e = elim (Bool-cases (has_colon k)) [
  | inl c ↦
      add_headers-IsSorted (record m { static_pseudo = m.static_pseudo ++ (k, v) ∷ [] }) m' rest
        (record {
          pseudo = All-append IsPseudo m.static_pseudo _ s.pseudo (c, tt);
          regular = s.regular;
          last = s.last;
        })
        (rw c at e)
  | inr c ↦
      add_headers-IsSorted (record m { static_regular = m.static_regular ++ (k, v) ∷ [] }) m' rest
        (record {
          pseudo = s.pseudo;
          regular = All-append IsRegular m.static_regular _ s.regular (c, tt);
          last = s.last;
        })
        (rw c at e)
]

default-IsSorted : IsSorted default_middleware
default-IsSorted = record { pseudo = (refl, (refl, tt)); regular = (refl, (refl, tt)); last = refl }

pub new_default_middleware-IsSorted :
    (next : MetaMiddleware) (hs : List Bytes) (m : DefaultMiddleware)
    → new_default_middleware next hs ≡ some m
    → IsSorted m
unfolding new_default_middleware
new_default_middleware-IsSorted next hs m e =
    add_headers-IsSorted default_middleware m hs default-IsSorted e

-- What a default middleware lets through is regular.
pub is_allowed-IsRegular :
    (m : DefaultMiddleware) (k : Bytes) → is_allowed m k ≡ true → has_colon k ≡ false
unfolding is_allowed
is_allowed-IsRegular m [] e = refl
is_allowed-IsRegular m (c ∷ k) e = ground arith
