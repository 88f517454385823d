-- ===== src/Methods/Vxdb/Limits/Pages.antt =====
-- Limits that are kept in pages.
use native.Mathlib.Nat.{div-mul-le_self, lt-div-mul-add, mul_assoc}
use vcd.Base.{ℕ, ◌+◌, ◌*◌, ◌/◌, ◌%◌, ◌^◌, ◌≤◌, ◌<◌, ◌≡◌, sym, ap, subst, arith}
use vcd.Platform.{Platform}
use vcd.Methods.Vxdb.Limits.{bytestopages, pagestobytes}

-- `pages` pages of `k` KiB, of which `kib` is a number below 2^64 bytes.
kept :
    (k kib q : ℕ)
    → kib * 1024 < 2 ^ 64
    → q * (k * 1024) ≤ kib * 1024
    → kib * 1024 < q * (k * 1024) + k * 1024
    → (q * (k * 1024) % 2 ^ 64 / 1024 ≤ kib) × (kib < q * (k * 1024) % 2 ^ 64 / 1024 + k)
kept k kib q small low high =
    let flat : q * (k * 1024) ≡ q * k * 1024 = sym (mul_assoc q k 1024) in
    let low' = subst (λ z. z ≤ kib * 1024) flat low in
    let high' = subst (λ z. kib * 1024 < z + k * 1024) flat high in
    rw flat (omega arith, omega arith)

module _ ⦃p : Platform⦄ where
  -- Where a page has `k` KiB, a limit of `kib` KiB below 2^64 bytes that was converted to pages for the
  -- database and back is at most `kib`, and less than a page has been cut off.
  pub pagestobytes-bytestopages :
      (k kib : ℕ)
      → p.getpagesize ≡ k * 1024
      → 0 < k
      → kib * 1024 < 2 ^ 64
      → (pagestobytes (bytestopages kib) ≤ kib) × (kib < pagestobytes (bytestopages kib) + k)
  unfolding pagestobytes bytestopages
  pagestobytes-bytestopages k kib page some_page small =
      let whole : kib * 1024 % 2 ^ 64 ≡ kib * 1024 = omega arith in
      rw (page, whole)
        (kept k kib (kib * 1024 / (k * 1024)) small (div-mul-le_self (kib * 1024) (k * 1024))
          (lt-div-mul-add (omega arith)))

  -- bytestopages converts a limit as if the multiples of 2^54 KiB in it were not there.
  pub bytestopages-wraps : (kib n : ℕ) → bytestopages (kib + n * 2 ^ 54) ≡ bytestopages kib
  unfolding bytestopages
  bytestopages-wraps kib n = ap (λ z. z / p.getpagesize) (wraps kib n)
    where
      wraps : (kib n : ℕ) → (kib + n * 2 ^ 54) * 1024 % 2 ^ 64 ≡ kib * 1024 % 2 ^ 64
      wraps kib n = omega arith
