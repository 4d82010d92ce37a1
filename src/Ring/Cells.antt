-- ===== src/Ring/Cells.antt =====
-- include/jevmachopp/RingBuffer.h: the physical cells behind raw indices.
use native.Mathlib.Nat.{pow-suc, mod-mod_of_dvd, dvd-mul_right, mod-add-div, mul-le-mul_left}
use jevmachopp.Base.{
  ℕ, zero, suc, ◌+◌, ◌-◌, ◌*◌, ◌/◌, ◌%◌, ◌^◌, ◌≤◌, ◌<◌, ◌≡◌, ◌≢◌, ◌∙◌, refl, ap, ap₂, ==_iff, arith,
  dec_lt, List, [], ◌∷◌, ◌++◌, length, bit_and_mask,
}
use jevmachopp.Ring.{masked, cell_of, update}

pub masked_lem : (k raw : ℕ) → masked k raw ≡ raw % (2 ^ k * 2)
unfolding masked
masked_lem k raw = rw (← pow-suc 2 k) (bit_and_mask (suc k) raw)

-- The mirror hides one bit of the masked index.
pub cell_of_lem : (k raw : ℕ) → cell_of k raw ≡ raw % 2 ^ k
unfolding cell_of
cell_of_lem k raw =
    ap (λ (t : ℕ). t % 2 ^ k) (masked_lem k raw)
    ∙ mod-mod_of_dvd (2 ^ k) raw (dvd-mul_right (2 ^ k) 2)

-- Two indices less than `p` apart differ modulo `p`.
pub mod_ne : (a b p : ℕ) → a < b → b < a + p → a % p ≢ b % p
mod_ne a b p lo hi e = elim (dec_lt (a / p) (b / p)) [
  | yes up ↦ absurd (omega (arith, mod-add-div a p, mod-add-div b p, mul-le-mul_left p up))
  | no down ↦
      absurd (omega (arith, mod-add-div a p, mod-add-div b p, mul-le-mul_left p (not_above down)))
]
  where
    not_above : ¬ (a / p < b / p) → b / p ≤ a / p
    not_above h = omega arith

pub cell_of_ne : (k a b : ℕ) → a < b → b < a + 2 ^ k → cell_of k b ≢ cell_of k a
cell_of_ne k a b lo hi e = mod_ne a b (2 ^ k) lo hi (cc (e, cell_of_lem k a, cell_of_lem k b))

pub update_self {ℓ} : {A : Type ℓ} (f : ℕ → A) (i : ℕ) (x : A) → update f i x i ≡ x
update_self f i x = rw ((==_iff i i).1 refl)

module _ {ℓ} {A : Type ℓ} (k : ℕ) where
  -- The values behind the `n` raw indices from `i` on.
  unfoldable pub window : (ℕ → A) → ℕ → ℕ → List A
  window f i zero = []
  window f i (suc n) = f (cell_of k i) ∷ window f (i + 1) n

  pub length-window : (f : ℕ → A) (i n : ℕ) → length (window f i n) ≡ n
  unfolding window
  length-window f i zero = refl
  length-window f i (suc n) = ap suc (length-window f (i + 1) n)

  pub window-suc :
      (f : ℕ → A) (i n : ℕ) → window f i (suc n) ≡ window f i n ++ (f (cell_of k (i + n)) ∷ [])
  unfolding window
  window-suc f i zero = ap (λ (j : ℕ). f (cell_of k j) ∷ []) {x = i} (omega arith)
  window-suc f i (suc n) =
      ap (λ (l : List A). f (cell_of k i) ∷ l) (window-suc f (i + 1) n)
      ∙ ap (λ (j : ℕ). f (cell_of k i) ∷ (window f (i + 1) n ++ (f (cell_of k j) ∷ [])))
          {x = i + 1 + n} (omega arith)

  -- A write to the cell behind `w` shows in no window that ends before `w`.
  pub window-update :
      (f : ℕ → A) (i n w : ℕ) (x : A)
      → i + n ≤ w
      → w < i + 2 ^ k
      → window (update f (cell_of k w) x) i n ≡ window f i n
  unfolding window
  window-update f i zero w x lo hi = refl
  window-update f i (suc n) w x lo hi = ground (
    arith,
    cell_of_ne k i w (omega arith) hi,
    window-update f (i + 1) n w x (omega arith) (omega arith),
  )

  -- Writing the cell behind `w` appends to the window that ends before `w`.
  pub window-write :
      (f : ℕ → A) (rd w : ℕ) (x : A)
      → rd ≤ w
      → w < rd + 2 ^ k
      → window (update f (cell_of k w) x) rd (suc (w - rd)) ≡ window f rd (w - rd) ++ (x ∷ [])
  window-write f rd w x lo hi =
      window-suc (update f (cell_of k w) x) rd (w - rd)
      ∙ ap₂ (λ (l : List A) (y : A). l ++ (y ∷ []))
          (window-update f rd (w - rd) w x (omega arith) hi) newest
    where
      last : rd + (w - rd) ≡ w
      last = omega arith

      newest : update f (cell_of k w) x (cell_of k (rd + (w - rd))) ≡ x
      newest = rw (last, update_self f (cell_of k w) x)
