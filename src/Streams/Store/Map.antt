-- ===== src/Streams/Store/Map.antt =====
-- The laws of the map, and the map as an implementation of the interface.
use framer.Base.{
  ℕ, ◌≡◌, refl, List, [], ◌∷◌, none, some, if◌then◌else◌, ◌==◌, arith, inl, inr, Option-cases,
}
use framer.Streams.Store.{get, set_entry, delete, get_and_delete}
use framer.Streams.Store.Interface.{StreamStore}

module _ {ℓ} {V : Type ℓ} where
  pub get-set_entry :
      (m : List (ℕ × V)) (i j : ℕ) (v : V)
      → get (set_entry m i v) j ≡ (if i == j then some v else get m j)
  unfolding get set_entry
  get-set_entry [] i j v = refl
  get-set_entry ((k, w) ∷ m) i j v = ground (arith, get-set_entry m i j v)

  pub get-delete :
      (m : List (ℕ × V)) (i j : ℕ) → get (delete m i) j ≡ (if i == j then none else get m j)
  unfolding get delete
  get-delete [] i j = ground arith
  get-delete ((k, w) ∷ m) i j = ground (arith, get-delete m i j)

  pub get_and_delete_lem :
      (m : List (ℕ × V)) (i : ℕ)
      → ((get_and_delete m i).0 ≡ get m i)
        × ((j : ℕ) → get (get_and_delete m i).1 j ≡ (if i == j then none else get m j))
  unfolding get_and_delete
  get_and_delete_lem m i = elim (Option-cases (get m i)) [
    | inl e ↦ rw (e, get_and_delete) (refl, λ j. ground (arith, e))
    | inr (v, e) ↦ rw (e, get_and_delete) (refl, λ j. get-delete m i j)
  ]

-- `StreamsMap` serves every identifier.
abbrev pub streams_map : (V : Type 0) → StreamStore V
streams_map V = record {
  Store = List (ℕ × V);
  Served = λ _. Unit;
  IsBuilt = λ _. Unit;
  view = get;
  get = λ m i. some (get m i);
  set = λ m i v. some (set_entry m i v);
  delete = λ m i. some (delete m i);
  get_and_delete = λ m i. some (get_and_delete m i);
  get_lem = λ m i b h. refl;
  set_lem = λ m i v b h. (set_entry m i v, refl, tt, λ j _. get-set_entry m i j v);
  delete_lem = λ m i b h. (delete m i, refl, tt, λ j _. get-delete m i j);
  get_and_delete_lem = λ m i b h.
      let (a, c) = get_and_delete_lem m i in
      ((get_and_delete m i).1, (λ k. some (a k, (get_and_delete m i).1)), tt, λ j _. c j);
}
