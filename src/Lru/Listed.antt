-- ===== src/Lru/Listed.antt =====
-- A bounded cache as a list, which shows that the laws of the parameter can be met.
use policy_gate.Prelude.{
  ℕ, suc, ◌-◌, ◌<◌, ◌≡◌, refl, arith, Option, none, some, List, [], ◌∷◌, length, ◌==◌,
  if◌then◌else◌,
}
use policy_gate.Lru.{Lru, last?, init, find, remove}

-- Its capacity is one more than `spare`.
pub record Listed {ℓ} (K V : Type ℓ) : Type ℓ where
  pub stored : List (K × V)
  pub spare : ℕ

pub capacity_lem : (n : ℕ) → 0 < n → suc (n - 1) ≡ n
capacity_lem n h = omega arith

module _ {ℓ} {K V : Type ℓ} (dec : Discrete K) where
  abbrev pub kept : K → V → Listed K V → Listed K V
  kept k v c = record c { stored = (k, v) ∷ remove dec k c.stored }

  abbrev pub renew : K → (V → V) → Listed K V → Option V → Option (V × Listed K V)
  renew k f c none = none
  renew k f c (some v) = some (f v, kept k (f v) c)

  abbrev pub add : K → V → Listed K V → Option (K × V) × Listed K V
  add k v c = (
    if length c.stored == suc c.spare then last? c.stored else none,
    record c {
      stored = (k, v) ∷ (if length c.stored == suc c.spare then init c.stored else c.stored);
    },
  )

  pub renew_hit :
      (k : K) (f : V → V) (c : Listed K V) (v : V)
      → find dec k c.stored ≡ some v
      → renew k f c (find dec k c.stored) ≡ some (f v, kept k (f v) c)
  renew_hit k f c v h = rw h

  pub renew_miss :
      (k : K) (f : V → V) (c : Listed K V)
      → find dec k c.stored ≡ none
      → renew k f c (find dec k c.stored) ≡ none
  renew_miss k f c h = rw h

  abbrev pub listed : Lru K V
  listed = record {
    dec = dec;
    Cache = Listed K V;
    items = λ c. c.stored;
    capacity = λ c. suc c.spare;
    new = λ n. record { stored = []; spare = n - 1 };
    peek = λ k c. find dec k c.stored;
    get_mut = λ k f c. renew k f c (find dec k c.stored);
    push = add;
    pop = λ k c. (find dec k c.stored, record c { stored = remove dec k c.stored });
    peek_lru = λ c. last? c.stored;
    pop_lru = λ c. (last? c.stored, record c { stored = init c.stored });
    clear = λ c. record c { stored = [] };
    items-new = λ n. refl;
    capacity-new = capacity_lem;
    peek_lem = λ k c. refl;
    get_mut_miss = renew_miss;
    get_mut_hit = λ k f c v h. (kept k (f v) c, renew_hit k f c v h, refl, refl);
    push_evicted = λ k v c h. refl;
    push_items = λ k v c h. refl;
    push_capacity = λ k v c. refl;
    pop_lem = λ k c. refl;
    pop_items = λ k c. refl;
    pop_capacity = λ k c. refl;
    peek_lru_lem = λ c. refl;
    pop_lru_lem = λ c. refl;
    pop_lru_items = λ c. refl;
    pop_lru_capacity = λ c. refl;
    clear_items = λ c. refl;
    clear_capacity = λ c. refl;
  }
