-- ===== src/Streams/Store/Trace.antt =====
-- Histories of calls: a store, on identifiers that it serves, answers as a map does.
use framer.Base.{
  ℕ, ◌≡◌, refl, ◌∙◌, List, [], ◌∷◌, Option, none, some, if◌then◌else◌, ◌==◌, ◌>>=◌, All,
}
use framer.Streams.Store.Interface.{StreamStore}

-- The calls of the senders, the receivers and the timeout loop.
pub data Op (V : Type 0) : Type 0 where
  sets : ℕ → V → Op V
  gets deletes gets_and_deletes : ℕ → Op V

abbrev pub id_of : {V : Type 0} → Op V → ℕ
id_of (Op.sets i v) = i
id_of (Op.gets i) = i
id_of (Op.deletes i) = i
id_of (Op.gets_and_deletes i) = i

module _ {V : Type 0} where
  -- The answer of a call to a map from identifiers, and the map after it.
  pub answer : (ℕ → Option V) → Op V → Option V
  answer f (Op.sets i v) = none
  answer f (Op.gets i) = f i
  answer f (Op.deletes i) = none
  answer f (Op.gets_and_deletes i) = f i

  pub after : (ℕ → Option V) → Op V → ℕ → Option V
  after f (Op.sets i v) j = if i == j then some v else f j
  after f (Op.gets i) j = f j
  after f (Op.deletes i) j = if i == j then none else f j
  after f (Op.gets_and_deletes i) j = if i == j then none else f j

  pub answers : (ℕ → Option V) → List (Op V) → List (Option V)
  answers f [] = []
  answers f (o ∷ os) = answer f o ∷ answers (after f o) os

  module _ (S : StreamStore V) where
    open S use {
      Store, Served, IsBuilt, view, get, set, delete, get_and_delete, get_lem, set_lem, delete_lem,
      get_and_delete_lem,
    }

    -- A call, with `none` for the answer of a method that returns nothing.
    pub call : Store → Op V → Option (Option V × Store)
    call s (Op.sets i v) = set s i v >>= λ t. some (none, t)
    call s (Op.gets i) = get s i >>= λ r. some (r, s)
    call s (Op.deletes i) = delete s i >>= λ t. some (none, t)
    call s (Op.gets_and_deletes i) = get_and_delete s i

    pub calls : Store → List (Op V) → Option (List (Option V))
    calls s [] = some []
    calls s (o ∷ os) = call s o >>= λ r. calls r.1 os >>= λ rs. some (r.0 ∷ rs)

    call_lem :
        (s : Store) (o : Op V)
        → IsBuilt s
        → Served (id_of o)
        → (t : Store) × (call s o ≡ some (answer (view s) o, t))
          × IsBuilt t
          × ((j : ℕ) → Served j → view t j ≡ after (view s) o j)
    unfolding call answer after
    call_lem s (Op.sets i v) b h = let (t, e, c, l) = set_lem s i v b h in (t, rw e, c, l)
    call_lem s (Op.gets i) b h = (s, rw (get_lem s i b h), b, λ j _. refl)
    call_lem s (Op.deletes i) b h = let (t, e, c, l) = delete_lem s i b h in (t, rw e, c, l)
    call_lem s (Op.gets_and_deletes i) b h = get_and_delete_lem s i b h

    answer-agree :
        (f g : ℕ → Option V) (o : Op V)
        → ((j : ℕ) → Served j → f j ≡ g j)
        → Served (id_of o)
        → answer f o ≡ answer g o
    unfolding answer
    answer-agree f g (Op.sets i v) e h = refl
    answer-agree f g (Op.gets i) e h = e i h
    answer-agree f g (Op.deletes i) e h = refl
    answer-agree f g (Op.gets_and_deletes i) e h = e i h

    after-agree : (f g : ℕ → Option V) (o : Op V) (j : ℕ) → f j ≡ g j → after f o j ≡ after g o j
    unfolding after
    after-agree f g (Op.sets i v) j e = rw e
    after-agree f g (Op.gets i) j e = e
    after-agree f g (Op.deletes i) j e = rw e
    after-agree f g (Op.gets_and_deletes i) j e = rw e

    -- A store answers every history of calls on identifiers that it serves without a panic, and as
    -- a map answers it that agrees with the store's view at the start.
    pub calls-answers :
        (s : Store) (f : ℕ → Option V) (os : List (Op V))
        → IsBuilt s
        → ((j : ℕ) → Served j → view s j ≡ f j)
        → All (λ o. Served (id_of o)) os
        → calls s os ≡ some (answers f os)
    unfolding calls answers
    calls-answers s f [] b e h = refl
    calls-answers s f (o ∷ os) b e h =
        let (t, c, b', l) = call_lem s o b h.0 in
        let ih =
          calls-answers t (after f o) os b' (λ j sj. l j sj ∙ after-agree (view s) f o j (e j sj))
            h.1 in
        rw (c, ih, answer-agree (view s) f o e h.0)
