-- ===== src/Streams/Store/Keyed.antt =====
-- `Each` of the sharded store: the streams that the store has, each once. A stream is a value of `V` with
-- the identifier `id`, under which it is stored.
use framer.Streams.Store.Map.{get-set_entry, get-delete}
use framer.Streams.Store.Sharded.{IsOdd}
use framer.Base.{
  ℕ, zero, suc, ◌+◌, ◌%◌, ◌≡◌, ◌≢◌, ◌≤◌, refl, sym, subst, ap, of_some, ◌∙◌, List, [], ◌∷◌, ◌++◌,
  Option, none, some, if◌then◌else◌, ◌==◌, ==_iff, arith, get_elem?, set, inl, inr, Bool-cases,
  Option-cases, append-nil,
}
use framer.Streams.Store.{get, set_entry, delete, get_and_delete, each, each_shard}

module _ {V : Type 0} (id : V → ℕ) where
  -- The streams of a list with one identifier.
  unfoldable pub with_id : ℕ → List V → List V
  with_id i [] = []
  with_id i (v ∷ vs) = if id v == i then v ∷ with_id i vs else with_id i vs

  with_id-append : (i : ℕ) (vs ws : List V) → with_id i (vs ++ ws) ≡ with_id i vs ++ with_id i ws
  unfolding with_id
  with_id-append i [] ws = refl
  with_id-append i (v ∷ vs) ws = ground (arith, with_id-append i vs ws)

  abbrev pub found : Option V → List V
  found none = []
  found (some v) = v ∷ []

  -- The shard at the place `k`: each stream under its identifier, once.
  abbrev pub IsKeyed : ℕ → List (ℕ × V) → Type 0
  IsKeyed k [] = Unit
  IsKeyed k ((j, v) ∷ m) = (j % 16 ≡ k) × (id v ≡ j) × (get m j ≡ none) × IsKeyed k m

  pub set_entry-IsKeyed :
      (k : ℕ) (m : List (ℕ × V)) (i : ℕ) (v : V)
      → i % 16 ≡ k
      → id v ≡ i
      → IsKeyed k m
      → IsKeyed k (set_entry m i v)
  unfolding set_entry get
  set_entry-IsKeyed k [] i v e f h = (e, f, refl, tt)
  set_entry-IsKeyed k ((j, w) ∷ m) i v e f (a, b, c, d) = elim (Bool-cases (j == i)) [
    | inl p ↦ rw p (a, f ∙ sym ((==_iff j i).0 p), c, d)
    | inr p ↦
        rw p (a, b, ground (arith, get-set_entry m i j v, c, p), set_entry-IsKeyed k m i v e f d)
  ]

  pub delete-IsKeyed : (k : ℕ) (m : List (ℕ × V)) (i : ℕ) → IsKeyed k m → IsKeyed k (delete m i)
  unfolding delete
  delete-IsKeyed k [] i h = tt
  delete-IsKeyed k ((j, w) ∷ m) i (a, b, c, d) = elim (Bool-cases (j == i)) [
    | inl p ↦ rw p (delete-IsKeyed k m i d)
    | inr p ↦ rw p (a, b, ground (arith, get-delete m i j, c, p), delete-IsKeyed k m i d)
  ]

  pub get_and_delete-IsKeyed :
      (k : ℕ) (m : List (ℕ × V)) (i : ℕ) → IsKeyed k m → IsKeyed k (get_and_delete m i).1
  unfolding get_and_delete
  get_and_delete-IsKeyed k m i h = elim (Option-cases (get m i)) [
    | inl e ↦ rw (e, get_and_delete) h
    | inr (v, e) ↦ rw (e, get_and_delete) (delete-IsKeyed k m i h)
  ]

  -- Identifiers of other shards are not there.
  get_elsewhere : (k : ℕ) (m : List (ℕ × V)) (i : ℕ) → i % 16 ≢ k → IsKeyed k m → get m i ≡ none
  unfolding get
  get_elsewhere k [] i h d = refl
  get_elsewhere k ((j, w) ∷ m) i h (a, b, c, d) = elim (Bool-cases (j == i)) [
    | inl p ↦ absurd (h (ap (λ x. x % 16) (sym ((==_iff j i).0 p)) ∙ a))
    | inr p ↦ rw p (get_elsewhere k m i h d)
  ]

  each-found :
      (k : ℕ) (m : List (ℕ × V)) (i : ℕ) → IsKeyed k m → with_id i (each m) ≡ found (get m i)
  unfolding with_id each get
  each-found k [] i h = refl
  each-found k ((j, v) ∷ m) i (a, b, c, d) = elim (Bool-cases (j == i)) [
    | inl p ↦
        let gone : get m i ≡ none = subst (λ x. get m x ≡ none) ((==_iff j i).0 p) c in
        rw (b, p) (ap (◌∷◌ v) (each-found k m i d ∙ ap found gone))
    | inr p ↦ rw (b, p) (each-found k m i d)
  ]

  -- The shards from an even place on.
  abbrev pub IsShards : ℕ → List (Option (List (ℕ × V))) → Type 0
  IsShards p [] = Unit
  IsShards p (a ∷ []) = Unit
  IsShards p (a ∷ none ∷ r) = ⊥
  IsShards p (a ∷ some m ∷ r) = IsKeyed (suc p) m × IsShards (suc (suc p)) r

  pub IsShards-set :
      (p : ℕ) (l : List (Option (List (ℕ × V)))) (k : ℕ) (m : List (ℕ × V))
      → IsOdd k
      → IsKeyed (k + p) m
      → IsShards p l
      → IsShards p (set l k (some m))
  IsShards-set p [] k m odd h s = tt
  IsShards-set p (a ∷ []) zero m odd h s = tt
  IsShards-set p (a ∷ []) (suc k) m odd h s = tt
  IsShards-set p (a ∷ none ∷ r) k m odd h s = absurd s
  IsShards-set p (a ∷ some n ∷ r) zero m odd h s = absurd (omega (arith, odd))
  IsShards-set p (a ∷ some n ∷ r) (suc zero) m odd h (c, d) =
      let e : 1 + p ≡ suc p = omega arith in (subst (λ x. IsKeyed x m) e h, d)
  IsShards-set p (a ∷ some n ∷ r) (suc (suc k)) m odd h (c, d) =
      let e : suc (suc k) + p ≡ k + suc (suc p) = omega arith in
      (c, IsShards-set (suc (suc p)) r k m (omega (arith, odd)) (subst (λ x. IsKeyed x m) e h) d)

  pub IsShards-get :
      (p : ℕ) (l : List (Option (List (ℕ × V)))) (k : ℕ) (m : List (ℕ × V))
      → IsOdd k
      → get_elem? l k ≡ some (some m)
      → IsShards p l
      → IsKeyed (k + p) m
  IsShards-get p [] k m odd e s = absurd (cc e)
  IsShards-get p (a ∷ []) zero m odd e s = absurd (omega (arith, odd))
  IsShards-get p (a ∷ []) (suc k) m odd e s = absurd (cc e)
  IsShards-get p (a ∷ none ∷ r) k m odd e s = absurd s
  IsShards-get p (a ∷ some n ∷ r) zero m odd e s = absurd (omega (arith, odd))
  IsShards-get p (a ∷ some n ∷ r) (suc zero) m odd e (c, d) =
      let f : suc p ≡ 1 + p = omega arith in
      subst (λ x. IsKeyed x m) f (subst (IsKeyed (suc p)) (of_some (of_some e)) c)
  IsShards-get p (a ∷ some n ∷ r) (suc (suc k)) m odd e (c, d) =
      let f : suc (suc k) + p ≡ k + suc (suc p) = omega arith in
      subst (λ x. IsKeyed x m) (sym f) (IsShards-get (suc (suc p)) r k m (omega (arith, odd)) e d)

  -- What `Each` calls its function on: no stream of a shard before these, and the stream of an
  -- identifier, once, if it is there.
  pub record Listed (p : ℕ) (l : List (Option (List (ℕ × V)))) : Type 0 where
    pub streams : List V
    pub listed : each_shard l ≡ some streams
    pub before : (i : ℕ) → i % 16 ≤ p → with_id i streams ≡ []
    pub there :
        (i k : ℕ) (m : List (ℕ × V))
        → IsOdd k
        → i % 16 ≡ k + p
        → get_elem? l k ≡ some (some m)
        → with_id i streams ≡ found (get m i)

  module _ (p : ℕ) (m : List (ℕ × V)) (c : IsKeyed (suc p) m) (r : List (Option (List (ℕ × V))))
      (d : Listed (suc (suc p)) r) where
    whole : (i : ℕ) → with_id i (each m ++ d.streams) ≡ found (get m i) ++ with_id i d.streams
    whole i =
        with_id-append i (each m) d.streams
        ∙ ap (λ vs. vs ++ with_id i d.streams) (each-found (suc p) m i c)

    elsewhere : (i : ℕ) → i % 16 ≢ suc p → with_id i (each m ++ d.streams) ≡ with_id i d.streams
    elsewhere i h =
        whole i ∙ ap (λ o. found o ++ with_id i d.streams) (get_elsewhere (suc p) m i h c)

    Listed-there :
        (i k : ℕ) (n : List (ℕ × V)) (a : Option (List (ℕ × V)))
        → IsOdd k
        → i % 16 ≡ k + p
        → get_elem? (a ∷ some m ∷ r) k ≡ some (some n)
        → with_id i (each m ++ d.streams) ≡ found (get n i)
    Listed-there i zero n a odd e g = absurd (omega (arith, odd))
    Listed-there i (suc zero) n a odd e g =
        whole i
        ∙ ap (◌++◌ (found (get m i))) (d.before i (omega (arith, e)))
        ∙ append-nil (found (get m i))
        ∙ ap (λ m. found (get m i)) (of_some (of_some g))
    Listed-there i (suc (suc k)) n a odd e g =
        elsewhere i (λ f. absurd (omega (arith, e, f, odd)))
        ∙ d.there i k n (omega (arith, odd)) (omega (arith, e)) g

  pub each_shard-Listed : (p : ℕ) (l : List (Option (List (ℕ × V)))) → IsShards p l → Listed p l
  unfolding each_shard with_id
  each_shard-Listed p [] s = record {
    streams = [];
    listed = refl;
    before = λ i h. refl;
    there = λ i k m odd e g. absurd (cc g);
  }
  each_shard-Listed p (a ∷ []) s = record {
    streams = [];
    listed = refl;
    before = λ i h. refl;
    there = one_there;
  }
    where
      one_there :
          (i k : ℕ) (m : List (ℕ × V))
          → IsOdd k
          → i % 16 ≡ k + p
          → get_elem? (a ∷ []) k ≡ some (some m)
          → [] ≡ found (get m i)
      one_there i zero m odd e g = absurd (omega (arith, odd))
      one_there i (suc k) m odd e g = absurd (cc g)
  each_shard-Listed p (a ∷ none ∷ r) s = absurd s
  each_shard-Listed p (a ∷ some m ∷ r) (c, s) =
      let d = each_shard-Listed (suc (suc p)) r s in
      record {
        streams = each m ++ d.streams;
        listed = rw (d.listed, each_shard);
        before = λ i h.
            elsewhere p m c r d i (λ f. absurd (omega (arith, f, h)))
            ∙ d.before i (omega (arith, h));
        there = λ i k n odd e g. Listed-there p m c r d i k n a odd e g;
      }
