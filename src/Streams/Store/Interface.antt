-- ===== src/Streams/Store/Interface.antt =====
-- `types.StreamStore` as its clients see it: the methods, the map from identifiers that they
-- implement, and the identifiers that they serve. A method on another identifier may panic (`none`).
use framer.Base.{ℕ, ◌≡◌, Option, none, some, if◌then◌else◌, ◌==◌}

pub record StreamStore (V : Type 0) : Type 1 where
  pub Store : Type 0
  pub Served : ℕ → Type 0
  -- what reachable stores satisfy
  pub IsBuilt : Store → Type 0
  pub view : Store → ℕ → Option V
  pub get : Store → ℕ → Option (Option V)
  pub set : Store → ℕ → V → Option Store
  pub delete : Store → ℕ → Option Store
  pub get_and_delete : Store → ℕ → Option (Option V × Store)
  pub get_lem : (s : Store) (i : ℕ) → IsBuilt s → Served i → get s i ≡ some (view s i)
  pub set_lem :
      (s : Store) (i : ℕ) (v : V)
      → IsBuilt s
      → Served i
      → (t : Store) × (set s i v ≡ some t)
        × IsBuilt t
        × ((j : ℕ) → Served j → view t j ≡ (if i == j then some v else view s j))
  pub delete_lem :
      (s : Store) (i : ℕ)
      → IsBuilt s
      → Served i
      → (t : Store) × (delete s i ≡ some t)
        × IsBuilt t
        × ((j : ℕ) → Served j → view t j ≡ (if i == j then none else view s j))
  pub get_and_delete_lem :
      (s : Store) (i : ℕ)
      → IsBuilt s
      → Served i
      → (t : Store) × (get_and_delete s i ≡ some (view s i, t))
        × IsBuilt t
        × ((j : ℕ) → Served j → view t j ≡ (if i == j then none else view s j))
