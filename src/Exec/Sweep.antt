-- ===== src/Exec/Sweep.antt =====
-- The sweeping loops of internal/exec against their description.
use microagent.Prelude.{
  ℕ, zero, suc, ◌+◌, ◌-◌, ◌≡◌, refl, ap, ◌∙◌, List, [], ◌∷◌, ◌++◌, take, length, arith,
}
use microagent.Exec.{
  GcStats, Verdict, ignored, scanned_only, reclaimed_bytes, count, remains, sweep,
}

abbrev pub drop {ℓ} : {A : Type ℓ} → ℕ → List A → List A
drop zero xs = xs
drop (suc n) [] = []
drop (suc n) (x ∷ xs) = drop n xs

module _ {ℓ} {A : Type ℓ} (verdict : A → Verdict) where
  -- The entries that are not reclaimed.
  abbrev pub survivors : List A → List A
  survivors [] = []
  survivors (x ∷ xs) = remains (verdict x) x (survivors xs)

  abbrev pub scanned_of : Verdict → ℕ
  scanned_of ignored = 0
  scanned_of scanned_only = 1
  scanned_of (reclaimed_bytes size) = 1

  abbrev pub reclaimed_of : Verdict → ℕ
  reclaimed_of (reclaimed_bytes size) = 1
  reclaimed_of _ = 0

  abbrev pub bytes_of : Verdict → ℕ
  bytes_of (reclaimed_bytes size) = size
  bytes_of _ = 0

  abbrev pub total : (Verdict → ℕ) → List A → ℕ
  total f [] = 0
  total f (x ∷ xs) = total f xs + f (verdict x)

  abbrev pub totals : List A → GcStats
  totals xs = record {
    scanned = total scanned_of xs;
    reclaimed = total reclaimed_of xs;
    freed_bytes = total bytes_of xs;
  }

  count-totals : (x : A) (xs : List A) → count (verdict x) (totals xs) ≡ totals (x ∷ xs)
  count-totals x xs = counted (verdict x)
    where
      counted :
          (v : Verdict)
          → count v (totals xs) ≡ record {
            scanned = total scanned_of xs + scanned_of v;
            reclaimed = total reclaimed_of xs + reclaimed_of v;
            freed_bytes = total bytes_of xs + bytes_of v;
          }
      counted ignored =
          let e : total scanned_of xs ≡ total scanned_of xs + 0 = omega arith in
          let r : total reclaimed_of xs ≡ total reclaimed_of xs + 0 = omega arith in
          let b : total bytes_of xs ≡ total bytes_of xs + 0 = omega arith in cc
      counted scanned_only =
          let r : total reclaimed_of xs ≡ total reclaimed_of xs + 0 = omega arith in
          let b : total bytes_of xs ≡ total bytes_of xs + 0 = omega arith in cc
      counted (reclaimed_bytes size) = refl

  remains-append :
      (v : Verdict) (x : A) (xs ys : List A) → remains v x (xs ++ ys) ≡ remains v x xs ++ ys
  remains-append ignored x xs ys = refl
  remains-append scanned_only x xs ys = refl
  remains-append (reclaimed_bytes size) x xs ys = refl

  -- The first `n` entries are swept and the others are left alone.
  pub sweep_lem :
      (n : ℕ) (xs : List A)
      → sweep verdict n xs ≡ (totals (take n xs), survivors (take n xs) ++ drop n xs, n - length xs)
  unfolding sweep
  sweep_lem zero [] = refl
  sweep_lem (suc n) [] = let e : suc n ≡ suc n - 0 = omega arith in cc
  sweep_lem zero (x ∷ xs) = let e : 0 ≡ 0 - suc (length xs) = omega arith in cc
  sweep_lem (suc n) (x ∷ xs) =
      let e : n - length xs ≡ suc n - suc (length xs) = omega arith in
      let c = count-totals x (take n xs) in
      let r = remains-append (verdict x) x (survivors (take n xs)) (drop n xs) in
      ap (λ (st, left, m). (count (verdict x) st, remains (verdict x) x left, m)) (sweep_lem n xs)
      ∙ cc
