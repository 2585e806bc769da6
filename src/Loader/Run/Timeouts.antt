-- ===== src/Loader/Run/Timeouts.antt =====
-- Which streams the timeouts end.
use framer.Base.{
  ℕ, ◌≡◌, refl, sym, ap, ◌∙◌, List, [], ◌∷◌, ◌++◌, Option, none, some, Bool, true, false, ◌||◌,
  if◌then◌else◌, ◌==◌, ==_iff, arith, Bool-cases, inl, inr, All,
}
use framer.Streams.Store.{ShardedStreamsMap}
use framer.Streams.Store.Sharded.{IsOdd, Built, sharded_view, sharded_get_and_delete_lem}
use framer.Streams.Store.Keyed.{with_id}
use framer.Streams.Store.Each.{Reached, Reached-Keyed}
use framer.Loader.Run.{expire, expire_all}

-- Whether an identifier is among those that the queue gives.
unfoldable pub has : ℕ → List ℕ → Bool
has i [] = false
has i (j ∷ is) = (j == i) || has i is

module _ {V : Type 0} where
  -- The stream of an identifier, if there is one.
  abbrev pub entry : ℕ → Option V → List (ℕ × V)
  entry i none = []
  entry i (some v) = (i, v) ∷ []

  expire_lem :
      (s : ShardedStreamsMap V) (i : ℕ)
      → Built s
      → IsOdd i
      → (t : ShardedStreamsMap V) × (expire s i ≡ some (entry i (sharded_view s i), t))
        × Built t
        × ((j : ℕ) → IsOdd j → sharded_view t j ≡ (if i == j then none else sharded_view s j))
  unfolding expire
  expire_lem s i b odd =
      let (t, e, c, l) = sharded_get_and_delete_lem s i b odd in
      (t, rw (e, expire) (entered (sharded_view s i) t), c, l)
    where
      entered :
          (o : Option V) (t : ShardedStreamsMap V)
          → ◌≡◌ {A = Option (List (ℕ × V) × ShardedStreamsMap V)}
              (elim o [ none ↦ some ([], t) | some v ↦ some ((i, v) ∷ [], t) ])
              (some (entry i o, t))
      entered none t = refl
      entered (some v) t = refl

  log_same :
      (i : ℕ) (o : Option V) (log : List (ℕ × V))
      → with_id (λ x. x.0) i log ≡ []
      → with_id (λ x. x.0) i (entry i o ++ log) ≡ entry i o
  unfolding with_id
  log_same i none log h = h
  log_same i (some v) log h =
      let p : (i == i) ≡ true = (==_iff i i).1 refl in rw p (ap (◌∷◌ (i, v)) h)

  log_other :
      (i j : ℕ) (o : Option V) (log : List (ℕ × V))
      → (j == i) ≡ false
      → with_id (λ x. x.0) i (entry j o ++ log) ≡ with_id (λ x. x.0) i log
  unfolding with_id
  log_other i j none log p = refl
  log_other i j (some v) log p = rw p refl

  nothing : (b : Bool) → ◌≡◌ {A = List (ℕ × V)} (if b then [] else []) []
  nothing true = refl
  nothing false = refl

  -- One identifier more.
  log_step :
      (i j : ℕ) (o x y : Option V) (log : List (ℕ × V)) (b : Bool)
      → y ≡ (if j == i then none else x)
      → ((j == i) ≡ true → entry j o ≡ entry i x)
      → with_id (λ x. x.0) i log ≡ (if b then entry i y else [])
      → with_id (λ x. x.0) i (entry j o ++ log) ≡ (if (j == i) || b then entry i x else [])
  log_step i j o x y log b e f g = elim (Bool-cases (j == i)) [
    | inl p ↦
        let gone : y ≡ none = e ∙ ap (λ c. if c then none else x) p in
        let empty : with_id (λ x. x.0) i log ≡ [] =
          g ∙ ap (λ y. if b then entry i y else []) gone ∙ nothing b in
        ap (λ l. with_id (λ x. x.0) i (l ++ log)) (f p)
        ∙ log_same i x log empty
        ∙ ap (λ c. if c || b then entry i x else []) (sym p)
    | inr p ↦
        log_other i j o log p
        ∙ g
        ∙ ap (λ y. if b then entry i y else []) (e ∙ ap (λ c. if c then none else x) p)
        ∙ ap (λ c. if c || b then entry i x else []) (sym p)
  ]

  left_step :
      (j i : ℕ) (x y : Option V) (b : Bool)
      → y ≡ (if j == i then none else x)
      → (if b then none else y) ≡ (if (j == i) || b then none else x)
  left_step j i x y true e = ground arith
  left_step j i x y false e = ground (arith, e)

  expire_all_lem :
      (s : ShardedStreamsMap V) (is : List ℕ)
      → Built s
      → All IsOdd is
      → (log : List (ℕ × V)) × (t : ShardedStreamsMap V) × (expire_all s is ≡ some (log, t))
        × ((i : ℕ)
            → IsOdd i
            → (with_id (λ x. x.0) i log ≡ (if has i is then entry i (sharded_view s i) else []))
              × (sharded_view t i ≡ (if has i is then none else sharded_view s i)))
  unfolding expire_all has with_id
  expire_all_lem s [] b odd = ([], s, refl, λ i h. (refl, refl))
  expire_all_lem s (j ∷ is) b (oj, odd) =
      let (t, e, c, l) = expire_lem s j b oj in
      let (log, u, f, g) = expire_all_lem t is c odd in
      (
        entry j (sharded_view s j) ++ log,
        u,
        rw (e, f),
        λ i h. (
          log_step i j (sharded_view s j) (sharded_view s i) (sharded_view t i) log (has i is)
              (l i h) (λ p. ap (λ k. entry k (sharded_view s k)) ((==_iff j i).0 p)) (g i h).0,
          (g i h).1 ∙ left_step j i (sharded_view s i) (sharded_view t i) (has i is) (l i h),
        ),
      )

  module _ (id : V → ℕ) where
    -- Whatever calls on odd identifiers made the store, and however often and in whatever order the queue
    -- gives an odd identifier, the goroutine that ends the streams whose time is over does not panic; it
    -- ends the stream that the store has under an identifier that the queue gives, once, and no other
    -- stream; and the store is without those identifiers and otherwise unchanged.
    pub expire_all-once :
        {s : ShardedStreamsMap V} (is : List ℕ)
        → Reached id s
        → All IsOdd is
        → (i : ℕ) → IsOdd i
        → (log : List (ℕ × V)) × (t : ShardedStreamsMap V) × (expire_all s is ≡ some (log, t))
          × (with_id (λ x. x.0) i log ≡ (if has i is then entry i (sharded_view s i) else []))
          × (sharded_view t i ≡ (if has i is then none else sharded_view s i))
    expire_all-once {s} is r odd i odd_i =
        let (log, t, e, f) = expire_all_lem s is (Reached-Keyed id r).built odd in
        (log, t, e, (f i odd_i).0, (f i odd_i).1)
