-- ===== src/Formats/MetaJson/Objects.antt =====
-- The JSON objects that are written of metadata.
use framer.Base.{
  ℕ, ◌≡◌, refl, sym, ap, ◌∙◌, Bytes, List, [], ◌∷◌, ◌++◌, Option, some, if◌then◌else◌, ◌>>=◌, codes,
  append_assoc, Bool-cases, inl, inr,
}
use framer.Datasource.Middleware.{eq_bytes}
use framer.Formats.Escape.Literal.{IsUtf8, Literal, Cleaned}
use framer.Formats.Escape.Whole.{escaped_alike}
use framer.Formats.BinaryEncoding.{Meta}
use framer.Utils.Lru.Recency.{same_bytes}
use framer.Formats.MetaJson.{
  escape, multi_from, multi_sorted, marshal_multi, single_from, marshal_single,
}

-- Neighbours of one name put together, with their values in order.
abbrev join : Meta → List (Bytes × List Bytes) → List (Bytes × List Bytes)
join m [] = (m.name, m.value ∷ []) ∷ []
join m ((n, vs) ∷ gs) =
    if eq_bytes n m.name then (m.name, m.value ∷ vs) ∷ gs else (m.name, m.value ∷ []) ∷ (n, vs) ∷ gs

unfoldable pub group : List Meta → List (Bytes × List Bytes)
group [] = []
group (m ∷ ms) = join m (group ms)

-- The entries of groups.
abbrev entries_of : Bytes → List Bytes → List Meta
entries_of n [] = []
entries_of n (v ∷ vs) = record { name = n; value = v } ∷ entries_of n vs

abbrev pub entries : List (Bytes × List Bytes) → List Meta
entries [] = []
entries ((n, vs) ∷ gs) = entries_of n vs ++ entries gs

entries-join : (m : Meta) (gs : List (Bytes × List Bytes)) → entries (join m gs) ≡ m ∷ entries gs
entries-join m [] = refl
entries-join m ((n, vs) ∷ gs) = elim (Bool-cases (eq_bytes n m.name)) [
  | inl p ↦ rw p (ap (λ k. m ∷ (entries_of k vs ++ entries gs)) (sym (same_bytes n m.name p)))
  | inr p ↦ rw p refl
]

entries-group : (ms : List Meta) → entries (group ms) ≡ ms
unfolding group
entries-group [] = refl
entries-group (m ∷ ms) = entries-join m (group ms) ∙ ap (◌∷◌ m) (entries-group ms)

module _ (decode_rune : Bytes → ℕ × ℕ) (H : IsUtf8 decode_rune) where
  -- The literal of a string, with its quotes, as `EscapeStringAppend` writes it.
  pub quoted : Bytes → Bytes
  quoted s = 34 ∷ (escaped_alike decode_rune H s).0

  escape-quoted : (bb s : Bytes) → escape decode_rune bb s ≡ some (bb ++ quoted s)
  unfolding quoted
  escape-quoted bb s = (escaped_alike decode_rune H s).2 bb

  -- `quoted` is a literal for the string.
  pub quoted-Literal :
      (s : Bytes)
      → (out : Bytes) × (text : Bytes) × (quoted s ≡ 34 ∷ out)
        × Literal out text
        × Cleaned decode_rune s text
  unfolding quoted
  quoted-Literal s =
      let (out, text, _, literal, cleaned) = escaped_alike decode_rune H s in
      (out, text, refl, literal, cleaned)

  -- What stands behind the first value of a name: its other values, and the other members.
  abbrev more_values : List Bytes → Bytes → Bytes
  more_values [] rest = 93 ∷ rest
  more_values (v ∷ vs) rest = 44 ∷ (quoted v ++ more_values vs rest)

  abbrev values : List Bytes → Bytes → Bytes
  values [] rest = 93 ∷ rest
  values (v ∷ vs) rest = quoted v ++ more_values vs rest

  abbrev more_members : List (Bytes × List Bytes) → Bytes
  more_members [] = 125 ∷ []
  more_members ((n, vs) ∷ gs) = 44 ∷ (quoted n ++ 58 ∷ 91 ∷ values vs (more_members gs))

  -- The object with a list of values for each name.
  abbrev pub object : List (Bytes × List Bytes) → Bytes
  object [] = 123 ∷ 125 ∷ []
  object ((n, vs) ∷ gs) = 123 ∷ (quoted n ++ 58 ∷ 91 ∷ values vs (more_members gs))

  -- What the loop writes behind the value of `prev`.
  behind : Bytes → List (Bytes × List Bytes) → Bytes
  behind prev [] = 93 ∷ 125 ∷ []
  behind prev ((n, vs) ∷ gs) =
      if eq_bytes n prev then more_values vs (more_members gs) else 93 ∷ more_members ((n, vs) ∷ gs)

  join-behind :
      (m : Meta) (gs : List (Bytes × List Bytes))
      → (vs : List Bytes) × (hs : List (Bytes × List Bytes)) × (join m gs
          ≡ (m.name, m.value ∷ vs) ∷ hs)
        × (behind m.name gs ≡ more_values vs (more_members hs))
  unfolding behind
  join-behind m [] = ([], [], refl, refl)
  join-behind m ((n, vs) ∷ gs) = elim (Bool-cases (eq_bytes n m.name)) [
    | inl p ↦ (vs, gs, rw p refl, rw (p, behind) refl)
    | inr p ↦ ([], (n, vs) ∷ gs, rw p refl, rw (p, behind) refl)
  ]

  placed : (a b c d : Bytes) → ((a ++ b) ++ c) ++ d ≡ a ++ (b ++ (c ++ d))
  placed a b c d = simp append_assoc

  behind_pair : (b n y v r : Bytes) → ((b ++ n ++ y) ++ v) ++ r ≡ b ++ (n ++ (y ++ (v ++ r)))
  behind_pair b n y v r = simp append_assoc

  placed_pair :
      (b x n y v r : Bytes) → (((b ++ x) ++ n ++ y) ++ v) ++ r ≡ b ++ (x ++ (n ++ (y ++ (v ++ r))))
  placed_pair b x n y v r = simp append_assoc

  -- Two literals, the first a name.
  pair_escaped :
      (y bb n v : Bytes) (f : Bytes → Option Bytes)
      → (escape decode_rune bb n >>= λ c. escape decode_rune (c ++ y) v >>= f)
        ≡ f ((bb ++ quoted n ++ y) ++ quoted v)
  pair_escaped y bb n v f =
      ap (λ o. o >>= λ c. escape decode_rune (c ++ y) v >>= f) (escape-quoted bb n)
      ∙ ap (λ o. o >>= f) (escape-quoted (bb ++ quoted n ++ y) v)

  multi_from-behind :
      (prev b : Bytes) (ms : List Meta)
      → multi_from decode_rune prev b ms ≡ some (b ++ behind prev (group ms))
  unfolding multi_from group behind
  multi_from-behind prev b [] = refl
  multi_from-behind prev b (m ∷ ms) =
      let (vs, hs, e, f) = join-behind m (group ms) in
      elim (Bool-cases (eq_bytes m.name prev)) [
        | inl p ↦
            rw (p, multi_from)
              (ap (λ o. o >>= λ c. multi_from decode_rune m.name c ms)
                  (escape-quoted (b ++ codes ",") m.value)
                ∙ multi_from-behind m.name ((b ++ codes ",") ++ quoted m.value) ms
                ∙ ap some (
                    ap (λ r. ((b ++ codes ",") ++ quoted m.value) ++ r) f
                    ∙ placed b (codes ",") (quoted m.value) (more_values vs (more_members hs)))
                ∙ rw (e, p, behind) refl)
        | inr p ↦
            rw (p, multi_from)
              (pair_escaped (codes ":[") (b ++ codes "],") m.name m.value
                  (λ d. multi_from decode_rune m.name d ms)
                ∙ multi_from-behind m.name _ ms
                ∙ ap some (
                    ap (◌++◌ (((b ++ codes "],") ++ quoted m.name ++ codes ":[") ++ quoted m.value))
                      f
                    ∙ placed_pair b (codes "],") (quoted m.name) (codes ":[") (quoted m.value)
                        (more_values vs (more_members hs)))
                ∙ rw (e, p, behind) refl)
      ]

  multi_sorted-object :
      (b : Bytes) (ms : List Meta) → multi_sorted decode_rune b ms ≡ some (b ++ object (group ms))
  unfolding multi_sorted group
  multi_sorted-object b [] = refl
  multi_sorted-object b (m ∷ ms) =
      let (vs, hs, e, f) = join-behind m (group ms) in
      pair_escaped (codes ":[") (b ++ codes "{") m.name m.value
        (λ d. multi_from decode_rune m.name d ms)
      ∙ multi_from-behind m.name _ ms
      ∙ ap some (
          ap (◌++◌ (((b ++ codes "{") ++ quoted m.name ++ codes ":[") ++ quoted m.value)) f
          ∙ placed_pair b (codes "{") (quoted m.name) (codes ":[") (quoted m.value)
              (more_values vs (more_members hs)))
      ∙ ap (λ gs. some (b ++ object gs)) (sym e)

  -- The members of the object with a value for each entry.
  abbrev pub singles : List Meta → Bytes
  singles [] = 125 ∷ []
  singles (m ∷ []) = quoted m.name ++ 58 ∷ (quoted m.value ++ 125 ∷ [])
  singles (m ∷ n ∷ ms) = quoted m.name ++ 58 ∷ (quoted m.value ++ 44 ∷ singles (n ∷ ms))

  single_from-singles :
      (b : Bytes) (ms : List Meta) → single_from decode_rune b ms ≡ some (b ++ singles ms)
  unfolding single_from
  single_from-singles b [] = refl
  single_from-singles b (m ∷ []) =
      pair_escaped (codes ":") b m.name m.value (λ d. some (d ++ codes "}"))
      ∙ ap some (behind_pair b (quoted m.name) (codes ":") (quoted m.value) (codes "}"))
  single_from-singles b (m ∷ n ∷ ms) =
      pair_escaped (codes ":") b m.name m.value
        (λ d. single_from decode_rune (d ++ codes ",") (n ∷ ms))
      ∙ single_from-singles ((b ++ quoted m.name ++ codes ":") ++ quoted m.value ++ codes ",")
          (n ∷ ms)
      ∙ ap some (
          placed (b ++ quoted m.name ++ codes ":") (quoted m.value) (codes ",") (singles (n ∷ ms))
          ∙ placed b (quoted m.name) (codes ":")
              (quoted m.value ++ (codes "," ++ singles (n ∷ ms))))

  -- Whatever the metadata is, and however it is sorted, `MultiVal` appends the object with a list of values
  -- for each run of one name, and the entries of the runs are those of the sorted metadata, in order;
  -- `SingleVal` appends the object with a value for each entry, in order; and each name and value in them is
  -- a JSON string literal for its bytes, with those that are no part of a rune replaced.
  pub marshal-object :
      (sort : List Meta → List Meta) (b : Bytes) (meta : List Meta)
      → sort [] ≡ []
      → (marshal_multi decode_rune sort b meta ≡ some (b ++ object (group (sort meta))))
        × (entries (group (sort meta)) ≡ sort meta)
        × (marshal_single decode_rune b meta ≡ some (b ++ 123 ∷ singles meta))
        × ((s : Bytes)
            → (out : Bytes) × (text : Bytes) × (quoted s ≡ 34 ∷ out)
              × Literal out text
              × Cleaned decode_rune s text)
  unfolding marshal_multi marshal_single group
  marshal-object sort b [] e = (
    ap (λ l. some (b ++ object (group l))) (sym e),
    entries-group (sort []),
    single_from-singles (b ++ codes "{") [] ∙ ap some (append_assoc b (codes "{") (singles [])),
    quoted-Literal,
  )
  marshal-object sort b (m ∷ ms) e = (
    multi_sorted-object b (sort (m ∷ ms)),
    entries-group (sort (m ∷ ms)),
    single_from-singles (b ++ codes "{") (m ∷ ms)
        ∙ ap some (append_assoc b (codes "{") (singles (m ∷ ms))),
    quoted-Literal,
  )
