-- ===== src/HashMap/Set.antt =====
-- Setting a key keeps the count of the buckets right.
use mathlib.Core.List.{Perm, Permᴰ}
use mathlib.Core.Logic.{∥∥₁_elim}
use native.Mathlib.Nat.{ℕ_set}
use speedy_os.Common.{
  ℕ, zero, suc, ◌*◌, ◌<◌, ◌≡◌, refl, ap, ◌∙◌, Bool, true, false, ◌&&◌, List, ◌∷◌, none, length, leb,
  u32_mod, ok, panic, ok-inversion, ◌≢◌, arith,
}
use speedy_os.HashMap.{Map, exists, locate_bucket, is_some, place, set_key}
use speedy_os.HashMap.Place.{entries, entries-free, place-Adds}

module _ {ℓ} {A : Type ℓ} where
  length-Permᴰ : (xs ys : List A) → Permᴰ xs ys → length xs ≡ length ys
  length-Permᴰ _ _ Permᴰ.nil = refl
  length-Permᴰ _ _ (Permᴰ.cons {l₁ = xs} {l₂ = ys} e p) = ap suc (length-Permᴰ xs ys p)
  length-Permᴰ _ _ (Permᴰ.swap e e') = refl
  length-Permᴰ _ _ (Permᴰ.trans {l₁ = xs} {l₂ = ys} {l₃ = zs} p q) =
      length-Permᴰ xs ys p ∙ length-Permᴰ ys zs q

  length-Perm : {xs ys : List A} → Perm xs ys → length xs ≡ length ys
  length-Perm p = ∥∥₁_elim p (ℕ_set _ _) (length-Permᴰ _ _)

module _ {ℓ} {V : Type ℓ} where
  -- The counter is that of the entries, and the storage has the capacity's buckets.
  pub record IsCounted (m : Map V) : Type ℓ where
    pub long : length m.storage ≡ m.capacity
    pub counted : m.occupied_buckets ≡ length (entries m.storage)
    pub fits : m.capacity < u32_mod

module _ {ℓ} {V : Type ℓ} (blank_value : V) where
  -- In a map whose counter is right, below the capacity, and where no resize is due, setting a key
  -- that the search does not find returns. It adds the key with its value, keeps each other entry,
  -- in some order, and the counter is right again.
  pub set_key-IsCounted :
      (k : ℕ) (m : Map V) (key : ℕ) (value : V) (auto_optimise : Bool)
      → IsCounted m
      → m.occupied_buckets < m.capacity
      → (auto_optimise && leb (92 * m.capacity) (100 * m.occupied_buckets)) ≡ false
      → locate_bucket m key ≡ ok none
      → (m' : Map V) × (set_key blank_value (suc k) m key value auto_optimise ≡ ok m')
        × IsCounted m'
        × Perm (entries m'.storage) ((key, value) ∷ entries m.storage)
  unfolding set_key is_some
  set_key-IsCounted k m key value auto_optimise inv room small absent =
      let (j, free, at, e) = entries-free m.storage (omega (arith, inv.long, inv.counted)) in
      let (m', run, held, long, kept, count) =
        place-Adds m key value j free inv.fits inv.long at e in
      let fits : leb m.capacity m.occupied_buckets ≡ false = ground arith in
      (
        m',
        rw (absent, small, fits) run,
        record {
          long = long;
          counted = omega (arith, count, inv.counted, inv.long, inv.fits, length-Perm held);
          fits = omega (arith, kept, inv.fits);
        },
        held,
      )

  -- A key that the search finds cannot be set.
  pub set_key-duplicate :
      (k : ℕ) (m : Map V) (key : ℕ) (value : V) (auto_optimise : Bool) (m' : Map V)
      → exists m key ≡ ok true
      → set_key blank_value k m key value auto_optimise ≢ ok m'
  unfolding exists set_key
  set_key-duplicate zero m key value auto_optimise m' found run = cc
  set_key-duplicate (suc k) m key value auto_optimise m' found run =
      let (place, located, e) = ok-inversion (locate_bucket m key) found in
      let some_place : is_some place ≡ true = cc in
      let stuck : panic ≡ ok m' = rw (located, some_place) at run in cc
