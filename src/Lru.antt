-- ===== src/Lru.antt =====
-- The bounded cache that src/gate.rs takes from the `lru` package, as a parameter: its
-- operations, with the documented meaning of each as a law about the cache's items in order,
-- most recently used first.
pub mod Listed
use policy_gate.Prelude.{
  ℕ, ◌<◌, ◌≡◌, Option, none, some, List, [], ◌∷◌, length, ◌==◌, if◌then◌else◌,
}

module _ {ℓ} {A : Type ℓ} where
  abbrev pub last? : List A → Option A
  last? [] = none
  last? (x ∷ []) = some x
  last? (x ∷ y ∷ xs) = last? (y ∷ xs)

  -- All but the last.
  abbrev pub init : List A → List A
  init [] = []
  init (x ∷ []) = []
  init (x ∷ y ∷ xs) = x ∷ init (y ∷ xs)

module _ {ℓ κ} {K : Type ℓ} {V : Type κ} (dec : Discrete K) where
  -- Without the first item of a key.
  abbrev pub remove : K → List (K × V) → List (K × V)
  remove k [] = []
  remove k ((j, v) ∷ items) =
      let rest = remove k items in elim (dec j k) [ yes _ ↦ items | no _ ↦ (j, v) ∷ rest ]

  abbrev pub find : K → List (K × V) → Option V
  find k [] = none
  find k ((j, v) ∷ items) =
      let rest = find k items in elim (dec j k) [ yes _ ↦ some v | no _ ↦ rest ]

pub record Lru {ℓ} (K V : Type ℓ) : Type (ℓ + 1) where
  pub dec : Discrete K
  pub Cache : Type ℓ
  -- `iter`
  pub items : Cache → List (K × V)
  -- `cap`
  pub capacity : Cache → ℕ
  pub new : ℕ → Cache
  pub peek : K → Cache → Option V
  -- `get_mut`, with what is then written through the reference.
  pub get_mut : K → (V → V) → Cache → Option (V × Cache)
  pub push : K → V → Cache → Option (K × V) × Cache
  pub pop : K → Cache → Option V × Cache
  pub peek_lru : Cache → Option (K × V)
  pub pop_lru : Cache → Option (K × V) × Cache
  pub clear : Cache → Cache
  pub items-new : (n : ℕ) → items (new n) ≡ []
  pub capacity-new : (n : ℕ) → 0 < n → capacity (new n) ≡ n
  pub peek_lem : (k : K) (c : Cache) → peek k c ≡ find dec k (items c)
  pub get_mut_miss :
      (k : K) (f : V → V) (c : Cache) → find dec k (items c) ≡ none → get_mut k f c ≡ none
  pub get_mut_hit :
      (k : K) (f : V → V) (c : Cache) (v : V)
      → find dec k (items c) ≡ some v
      → (after : Cache) × (get_mut k f c ≡ some (f v, after))
        × (items after ≡ (k, f v) ∷ remove dec k (items c))
        × (capacity after ≡ capacity c)
  -- A push of a new key evicts the least recently used item of a full cache.
  pub push_evicted :
      (k : K) (v : V) (c : Cache)
      → find dec k (items c) ≡ none
      → (push k v c).0 ≡ (if length (items c) == capacity c then last? (items c) else none)
  pub push_items :
      (k : K) (v : V) (c : Cache)
      → find dec k (items c) ≡ none
      → items (push k v c).1
        ≡ (k, v) ∷ (if length (items c) == capacity c then init (items c) else items c)
  pub push_capacity : (k : K) (v : V) (c : Cache) → capacity (push k v c).1 ≡ capacity c
  pub pop_lem : (k : K) (c : Cache) → (pop k c).0 ≡ find dec k (items c)
  pub pop_items : (k : K) (c : Cache) → items (pop k c).1 ≡ remove dec k (items c)
  pub pop_capacity : (k : K) (c : Cache) → capacity (pop k c).1 ≡ capacity c
  pub peek_lru_lem : (c : Cache) → peek_lru c ≡ last? (items c)
  pub pop_lru_lem : (c : Cache) → (pop_lru c).0 ≡ last? (items c)
  pub pop_lru_items : (c : Cache) → items (pop_lru c).1 ≡ init (items c)
  pub pop_lru_capacity : (c : Cache) → capacity (pop_lru c).1 ≡ capacity c
  pub clear_items : (c : Cache) → items (clear c) ≡ []
  pub clear_capacity : (c : Cache) → capacity (clear c) ≡ capacity c
