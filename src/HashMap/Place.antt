-- ===== src/HashMap/Place.antt =====
-- Placing an entry ends, and loses none of the others.
use mathlib.Core.List.{Perm}
use mathlib.Core.List.Perm
use native.Mathlib.Nat.{mod-lt}
use speedy_os.Common.{
  ℕ, zero, suc, ◌+◌, ◌-◌, ◌%◌, ◌≤◌, ◌<◌, ◌≡◌, refl, ap, sym, ◌∙◌, true, false, List, [], ◌∷◌, some,
  get_elem?, set, length, length-set, get_elem?-set_ne, get_elem?-some_of_lt, lt_of_get_elem?, ltb,
  ◌==◌, if◌then◌else◌, add32, u32_mod, Bool-cases, inl, inr, ok, arith,
}
use speedy_os.HashMap.{Entry, Map, step, write, place_loop, place}

module _ {ℓ} {V : Type ℓ} where
  abbrev pub pair : Entry V → ℕ × V
  pair e = (e.key, e.value)

  -- What the buckets hold.
  unfoldable pub entries : List (Entry V) → List (ℕ × V)
  entries [] = []
  entries (e ∷ storage) = if e.empty then entries storage else pair e ∷ entries storage

  entries-fill :
      (storage : List (Entry V)) (i : ℕ) (bucket e : Entry V)
      → get_elem? storage i ≡ some bucket
      → bucket.empty ≡ true
      → e.empty ≡ false
      → Perm (entries (set storage i e)) (pair e ∷ entries storage)
  unfolding entries
  entries-fill [] i bucket e at b n = cc
  entries-fill (x ∷ storage) zero bucket e at b n =
      let x_empty : x.empty ≡ true = cc in rw (n, x_empty) (Perm.refl _)
  entries-fill (x ∷ storage) (suc i) bucket e at b n =
      let rest = entries-fill storage i bucket e at b n in
      elim (Bool-cases x.empty) [
        | inl t ↦ rw t rest
        | inr f ↦
            rw f
              (Perm.trans (Perm.cons (pair x) rest) (Perm.swap (pair e) (pair x) (entries storage)))
      ]

  entries-swap :
      (storage : List (Entry V)) (i : ℕ) (bucket e : Entry V)
      → get_elem? storage i ≡ some bucket
      → bucket.empty ≡ false
      → e.empty ≡ false
      → Perm (pair bucket ∷ entries (set storage i e)) (pair e ∷ entries storage)
  unfolding entries
  entries-swap [] i bucket e at b n = cc
  entries-swap (x ∷ storage) zero bucket e at b n =
      let same : x ≡ bucket = cc in
      rw (n, same, b) (Perm.swap (pair e) (pair bucket) (entries storage))
  entries-swap (x ∷ storage) (suc i) bucket e at b n =
      let rest = entries-swap storage i bucket e at b n in
      elim (Bool-cases x.empty) [
        | inl t ↦ rw t rest
        | inr f ↦ rw f (
            Perm.trans (Perm.swap (pair x) (pair bucket) (entries (set storage i e))) (
              Perm.trans (Perm.cons (pair x) rest) (Perm.swap (pair e) (pair x) (entries storage))))
      ]

-- The index after `n` more probes.
steps : (capacity n index : ℕ) → ℕ
steps capacity zero index = index
steps capacity (suc n) index = steps capacity n (step capacity index)

step-below : (c i : ℕ) → i < c → c < u32_mod → step c i < c
unfolding step
step-below c i h b = ground arith

step-inside : (c i : ℕ) → suc i < c → c < u32_mod → step c i ≡ suc i
unfolding step
step-inside c i h b = ground arith

step-last : (c i : ℕ) → suc i ≡ c → c < u32_mod → step c i ≡ 0
unfolding step
step-last c i h b = ground arith

steps-inside : (c n i : ℕ) → i + n < c → c < u32_mod → steps c n i ≡ i + n
unfolding steps
steps-inside c zero i h b = omega arith
steps-inside c (suc n) i h b =
    rw (step-inside c i (omega arith) b, steps-inside c n (suc i) (omega arith) b) (omega arith)

steps-add : (c m n i : ℕ) → steps c (m + n) i ≡ steps c n (steps c m i)
unfolding steps
steps-add c zero n i = let e : 0 + n ≡ n = omega arith in ap (λ k. steps c k i) e
steps-add c (suc m) n i =
    let e : suc m + n ≡ suc (m + n) = omega arith in
    ap (λ k. steps c k i) e ∙ steps-add c m n (step c i)

-- Every bucket is reached, the one that the probes start from as the last.
steps-reach :
    (c i j : ℕ) → i < c → j < c → c < u32_mod → (n : ℕ) × (n < c) × (steps c (suc n) i ≡ j)
unfolding steps
steps-reach c i j hi hj b = elim (Bool-cases (ltb i j)) [
  | inl t ↦
      let lt : i < j = ground arith in
      let n = j - suc i in
      let e : i + suc n ≡ j = omega arith in
      (n, omega arith, steps-inside c (suc n) i (omega arith) b ∙ e)
  | inr f ↦
      let le : j ≤ i = ground arith in
      let m = c - suc i in
      let last : i + m ≡ c - 1 = omega arith in
      let e : m + suc j ≡ suc (m + j) = omega arith in
      let zero_j : 0 + j ≡ j = omega arith in
      (
        m + j,
        omega arith,
        ap (λ k. steps c k i) (sym e)
            ∙ steps-add c m (suc j) i
            ∙ ap (steps c (suc j)) (steps-inside c m i (omega arith) b ∙ last)
            ∙ ap (steps c j) (step-last c (c - 1) (omega arith) b)
            ∙ steps-inside c j 0 (omega arith) b
            ∙ zero_j,
      )
]

module _ {ℓ} {V : Type ℓ} where
  -- The new storage: as long, with one entry more.
  pub record Adds (storage : List (Entry V)) (e : Entry V) (storage' : List (Entry V))
      : Type ℓ where
    pub held : Perm (entries storage') (pair e ∷ entries storage)
    pub long : length storage' ≡ length storage

  Adds-swap :
      (storage : List (Entry V)) (i : ℕ) (bucket e : Entry V) (storage' : List (Entry V))
      → get_elem? storage i ≡ some bucket
      → bucket.empty ≡ false
      → e.empty ≡ false
      → Adds (set storage i e) bucket storage'
      → Adds storage e storage'
  Adds-swap storage i bucket e storage' at b n adds = record {
    held = Perm.trans adds.held (entries-swap storage i bucket e at b n);
    long = adds.long ∙ length-set storage i e;
  }

  write-Adds :
      (storage : List (Entry V)) (i : ℕ) (bucket e : Entry V)
      → get_elem? storage i ≡ some bucket
      → bucket.empty ≡ true
      → e.empty ≡ false
      → (write storage i e ≡ ok (set storage i e)) × Adds storage e (set storage i e)
  unfolding write
  write-Adds storage i bucket e at b n =
      let lt = lt_of_get_elem? storage i at in
      let t : ltb i (length storage) ≡ true = ground arith in
      (
        rw t refl,
        record { held = entries-fill storage i bucket e at b n; long = length-set storage i e },
      )

  -- The loop ends where an empty bucket is `n + 1` probes on.
  place_loop-Adds :
      (k n c : ℕ) (storage : List (Entry V)) (target free : Entry V) (i : ℕ)
      → n < k
      → i < c
      → c < u32_mod
      → length storage ≡ c
      → target.empty ≡ false
      → get_elem? storage (steps c (suc n) i) ≡ some free
      → free.empty ≡ true
      → (storage' : List (Entry V)) × (place_loop k c storage target i ≡ ok storage')
        × Adds storage target storage'
  unfolding place_loop steps
  place_loop-Adds zero n c storage target free i h hi hc len nt at fe = absurd (omega arith)
  place_loop-Adds (suc k) n c storage target free i h hi hc len nt at fe =
      let j = step c i in
      let hj = step-below c i hi hc in
      let moved : Entry V = record target { probes = add32 target.probes 1 } in
      let (bucket, here) = get_elem?-some_of_lt storage j (omega arith) in
      elim (Bool-cases bucket.empty) [
        | inl t ↦
            let (run, adds) = write-Adds storage j bucket moved here t nt in
            (
              set storage j moved,
              rw (here, t, run) refl,
              record { held = adds.held; long = adds.long },
            )
        | inr f ↦
            elim n as (λ n. n < suc k → get_elem? storage (steps c n j) ≡ some free → _) [
              | zero ↦ λ h at. absurd cc
              | suc n ↦ λ h at. elim (Bool-cases (ltb bucket.probes moved.probes)) [
                | inl r ↦
                    let at' : get_elem? (set storage j moved) (steps c (suc n) j) ≡ some free =
                      get_elem?-set_ne storage j (steps c (suc n) j) moved (λ e. cc) ∙ at in
                    let (s, run, adds) =
                      place_loop-Adds k n c (set storage j moved) bucket free j (omega arith) hj hc
                        (length-set storage j moved ∙ len) f at' fe in
                    let swapped = Adds-swap storage j bucket moved s here f nt adds in
                    (s, rw (here, r, f) run, record { held = swapped.held; long = swapped.long })
                | inr r ↦
                    let (s, run, adds) =
                      place_loop-Adds k n c storage moved free j (omega arith) hj hc len nt at fe in
                    (s, rw (here, r, f) run, record { held = adds.held; long = adds.long })
              ]
            ]
              h at
      ]

module _ {ℓ} {V : Type ℓ} where
  pub entries-free :
      (storage : List (Entry V))
      → length (entries storage) < length storage
      → (j : ℕ) × (e : Entry V) × (get_elem? storage j ≡ some e) × (e.empty ≡ true)
  unfolding entries
  entries-free [] h = absurd (omega arith)
  entries-free (x ∷ storage) h = elim (Bool-cases x.empty) [
    | inl t ↦ (0, x, refl, t)
    | inr f ↦
        let h' : suc (length (entries storage)) < suc (length storage) = rw f at h in
        let (j, e, at, b) = entries-free storage (omega arith) in (suc j, e, at, b)
  ]

  pub place-Adds :
      (m : Map V) (key : ℕ) (value : V) (j : ℕ) (free : Entry V)
      → m.capacity < u32_mod
      → length m.storage ≡ m.capacity
      → get_elem? m.storage j ≡ some free
      → free.empty ≡ true
      → (m' : Map V) × (place m key value ≡ ok m')
        × Perm (entries m'.storage) ((key, value) ∷ entries m.storage)
        × (length m'.storage ≡ m'.capacity)
        × (m'.capacity ≡ m.capacity)
        × (m'.occupied_buckets ≡ add32 m.occupied_buckets 1)
  unfolding place
  place-Adds m key value j free hc len at fe =
      let c = m.capacity in
      let hj = lt_of_get_elem? m.storage j at in
      let nz : (c == 0) ≡ false = ground arith in
      let home = key % c in
      let hh : home < c = mod-lt key (omega arith) in
      let target : Entry V = record { empty = false; probes = 0; key = key; value = value } in
      let result = λ (s : List (Entry V)). record m {
        storage = s;
        occupied_buckets = add32 m.occupied_buckets 1;
      } in
      let (bucket, here) = get_elem?-some_of_lt m.storage home (omega arith) in
      elim (Bool-cases bucket.empty) [
        | inl t ↦
            let (run, adds) = write-Adds m.storage home bucket target here t refl in
            (
              result (set m.storage home target),
              rw (nz, here, t, run) refl,
              adds.held,
              adds.long ∙ len,
              refl,
              refl,
            )
        | inr f ↦
            let (n, hn, reach) = steps-reach c home j hh (omega arith) hc in
            let (s, run, adds) =
              place_loop-Adds c n c m.storage target free home hn hh hc len refl
                (ap (get_elem? m.storage) reach ∙ at) fe in
            (result s, rw (nz, here, f, run) refl, adds.held, adds.long ∙ len, refl, refl)
      ]
