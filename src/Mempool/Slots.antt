-- ===== src/Mempool/Slots.antt =====
-- The free list as a chain of distinct objects, and the chain that `pool_init` builds.
use rayos.Base.{
  ℕ, zero, suc, ◌+◌, ◌*◌, ◌^◌, ◌≤◌, ◌<◌, ◌≡◌, ◌≢◌, refl, arith, Bool, true, false, ◌||◌, ◌==◌, List,
  [], ◌∷◌, length, update, subst, sym, Bool-cases, ==→eq, inl, inr, ap,
}
use rayos.Mempool.{null, slot, link_slots}

abbrev pub has : ℕ → List ℕ → Bool
has a [] = false
has a (x ∷ xs) = (a == x) || has a xs

-- From p the stored pointers lead through the distinct objects xs to NULL.
abbrev pub Chain : (ℕ → ℕ) → ℕ → List ℕ → Type 0
Chain mem p [] = p ≡ null
Chain mem p (x ∷ xs) = (p ≡ x) × (x ≢ null) × (has x xs ≡ false) × Chain mem (mem x) xs

pub Chain-frame :
    (mem new : ℕ → ℕ) (p : ℕ) (xs : List ℕ)
    → ((k : ℕ) → has k xs ≡ true → new k ≡ mem k)
    → Chain mem p xs
    → Chain new p xs
Chain-frame mem new p [] same c = c
Chain-frame mem new p (x ∷ xs) same c = (
  c.0,
  c.1,
  c.2,
  subst (λ t. Chain new t xs) (ground (arith, same x))
      (Chain-frame mem new (mem x) xs (λ k h. same k (ground arith)) c.3),
)

-- The objects with the indices i, ..., i + n - 1.
abbrev pub slots : ℕ → ℕ → ℕ → ℕ → List ℕ
slots page obj_size zero i = []
slots page obj_size (suc n) i = (page + i * obj_size) ∷ slots page obj_size n (suc i)

-- The objects from index i on, in the space that ends at `limit`.
module _ (page obj_size : ℕ) (some_space : 0 < page) (sized : 0 < obj_size) where
  has-slots : (n i k : ℕ) → has k (slots page obj_size n i) ≡ true → page + i * obj_size ≤ k
  has-slots zero i k h = cc
  has-slots (suc n) i k h = ground (arith, has-slots n (suc i) k)

  not_earlier : (n i j : ℕ) → i < j → has (page + i * obj_size) (slots page obj_size n j) ≡ false
  not_earlier zero i j h = refl
  not_earlier (suc n) i j h = grind (arith, not_earlier n i (suc j))

  -- One round of the loop puts object i in front of those behind it.
  pub link_slots-Chain :
      (i n : ℕ) (mem : ℕ → ℕ) (free_list : ℕ)
      → page + i * obj_size < 2 ^ 64
      → Chain mem free_list (slots page obj_size n i)
      → Chain
          (link_slots page obj_size i mem free_list).0
          (link_slots page obj_size i mem free_list).1
          (slots page obj_size (i + n) 0)
  unfolding link_slots
  link_slots-Chain zero n mem free_list fits c = let at : 0 + n ≡ n = omega arith in rw at c
  link_slots-Chain (suc i) n mem free_list fits c =
      let at : suc i + n ≡ i + suc n = omega arith in
      let here : page + i * obj_size < 2 ^ 64 = grind arith in
      let addr : slot page obj_size i ≡ page + i * obj_size = omega arith in
      let mem' = update mem (slot page obj_size i) free_list in
      let stored : mem' (page + i * obj_size) ≡ free_list = ground (arith, addr) in
      rw at (
        link_slots-Chain i (suc n) mem' (slot page obj_size i) here (
          addr,
          omega arith,
          not_earlier n i (suc i) (omega arith),
          subst (λ t. Chain mem' t (slots page obj_size n (suc i))) (sym stored)
              (Chain-frame mem mem' free_list (slots page obj_size n (suc i))
                (λ k h. ground (arith, addr, not_earlier n i (suc i) (omega arith))) c),
        ))

-- The addresses that a pool hands out lie in its pages, one object's length apart.
pub slots-fit :
    (page obj_size n i k : ℕ)
    → has k (slots page obj_size n i) ≡ true
    → (page + i * obj_size ≤ k) × (k + obj_size ≤ page + (i + n) * obj_size)
slots-fit page obj_size zero i k h = cc
slots-fit page obj_size (suc n) i k h = elim (Bool-cases (k == page + i * obj_size)) [
  | inl here ↦ (omega (arith, ==→eq _ _ here), grind (arith, ==→eq _ _ here))
  | inr later ↦
      let (lo, hi) = slots-fit page obj_size n (suc i) k (ground arith) in
      (omega arith, omega arith)
]

pub length-slots : (page obj_size n i : ℕ) → length (slots page obj_size n i) ≡ n
length-slots page obj_size zero i = refl
length-slots page obj_size (suc n) i = ap suc (length-slots page obj_size n (suc i))
