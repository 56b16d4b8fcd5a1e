-- ===== src/Platform/Collector/Cycle.antt =====
-- One cycle over all servers (`runCollectionCycle`): the batches of five, and the counter that says when
-- old rows are deleted.
use monitc.Prelude.{
  take, drop, length-take, leb→le, ℕ, zero, suc, ◌+◌, ◌*◌, ◌/◌, ◌<◌, ◌≤◌, max, Bool, true, false,
  List, [], ◌∷◌, ◌++◌, ◌≡◌, refl, arith, length, All, ap, if◌then◌else◌, leb, Bool-cases, inl, inr,
}

abbrev pub concurrency : ℕ
concurrency = 5

module _ {ℓ} {A : Type ℓ} where
  -- `work.slice(index, index + concurrency)` for each index of the loop. The first argument bounds the
  -- number of rounds.
  pub batches : ℕ → List A → List (List A)
  batches zero work = []
  batches (suc fuel) [] = []
  batches (suc fuel) (x ∷ work) =
      take concurrency (x ∷ work) ∷ batches fuel (drop concurrency (x ∷ work))

  abbrev pub join_all : List (List A) → List A
  join_all [] = []
  join_all (b ∷ bs) = b ++ join_all bs

  length-drop : (n : ℕ) (xs : List A) → length (drop n xs) ≤ length xs
  length-drop zero xs = omega arith
  length-drop (suc n) [] = omega arith
  length-drop (suc n) (x ∷ xs) = omega (arith, length-drop n xs)

  take-drop : (n : ℕ) (xs : List A) → take n xs ++ drop n xs ≡ xs
  take-drop zero xs = refl
  take-drop (suc n) [] = refl
  take-drop (suc n) (x ∷ xs) = ap (λ r. x ∷ r) (take-drop n xs)

  batches-join :
      (fuel : ℕ) (work : List A) → length work ≤ fuel → join_all (batches fuel work) ≡ work
  unfolding batches
  batches-join zero [] h = refl
  batches-join zero (x ∷ work) h = let bad : ⊥ = omega arith in elim bad [ ]
  batches-join (suc fuel) [] h = refl
  batches-join (suc fuel) (x ∷ work) h =
      rw (batches-join fuel (drop 4 work) (omega (arith, length-drop 4 work)))
        (take-drop 5 (x ∷ work))

  abbrev pub IsBatch : List A → Type 0
  IsBatch b = (1 ≤ length b) × (length b ≤ concurrency)

  batches-IsBatch : (fuel : ℕ) (work : List A) → All IsBatch (batches fuel work)
  unfolding batches
  batches-IsBatch zero work = tt
  batches-IsBatch (suc fuel) [] = tt
  batches-IsBatch (suc fuel) (x ∷ work) =
      ((omega arith, length-take 5 (x ∷ work)), batches-IsBatch fuel (drop 4 work))

  -- The batches of a cycle have one to five servers each and, one after the other, are all the servers
  -- in the order of the query.
  pub batches_lem :
      (work : List A)
      → (join_all (batches (length work) work) ≡ work) × All IsBatch (batches (length work) work)
  batches_lem work =
      (batches-join (length work) work (omega arith), batches-IsBatch (length work) work)

-- `Math.max(1, Math.round(3600 / seconds))`; halves are rounded up.
unfoldable pub cleanup_period : ℕ → ℕ
cleanup_period seconds = max 1 ((7200 + seconds) / (2 * seconds))

-- The counter after a cycle, and whether the cycle cleans.
unfoldable pub count_cycle : ℕ → ℕ → ℕ × Bool
count_cycle period counter = if leb period (counter + 1) then (0, true) else (counter + 1, false)

-- The counter after some cycles, and how many of them cleaned.
pub cycles : ℕ → ℕ → ℕ → ℕ × ℕ
cycles period zero counter = (counter, 0)
cycles period (suc n) counter =
    let r = count_cycle period counter in
    let rest = cycles period n r.0 in (rest.0, (if r.1 then 1 else 0) + rest.1)

cycles_count :
    (period n counter : ℕ)
    → counter < period
    → ((cycles period n counter).1 * period + (cycles period n counter).0 ≡ counter + n)
      × ((cycles period n counter).0 < period)
unfolding cycles count_cycle
cycles_count period zero counter h = (omega arith, h)
cycles_count period (suc n) counter h = elim (Bool-cases (leb period (counter + 1))) [
  | inl e ↦
      let ih = cycles_count period n 0 (omega arith) in
      rw e (omega (arith, ih.0, leb→le period (counter + 1) e), ih.1)
  | inr e ↦
      let ih = cycles_count period n (counter + 1) (ground arith) in
      rw e (omega (arith, ih.0), ih.1)
]

-- Old rows are deleted once in every period of cycles: of the `n` cycles since the start as many have
-- cleaned as there are whole periods, and the counter has the rest.
pub cleanups_lem :
    (seconds n : ℕ)
    → let period = cleanup_period seconds in
      let r = cycles period n 0 in (r.1 * period + r.0 ≡ n) × (r.0 < period)
unfolding cleanup_period
cleanups_lem seconds n =
    let h = cycles_count (cleanup_period seconds) n 0 (omega arith) in (omega (arith, h.0), h.1)
