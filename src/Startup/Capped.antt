-- ===== src/Startup/Capped.antt =====
-- cmd/easyp-svc/start.go: the licence lowers the number of workers and never raises it.
use easyp_plugin_server.Common.{
  ℕ, zero, suc, ltb, ◌≡◌, ◌⊎◌, inl, inr, refl, true, false, ℤ, pos, negsuc, not_positive, less,
  arith, Bool-cases,
}
use easyp_plugin_server.Startup.{capped_workers}

ltb-same : (n : ℕ) → ltb n n ≡ false
ltb-same n = ground arith

-- The number of workers is the configured one or the limit of the licence, it is not above the
-- configured one, and not above a limit that is positive; a positive number stays positive.
pub capped_workers-fits :
    (configured license_limit : ℤ)
    → not_positive configured ≡ false
    → (less configured (capped_workers configured license_limit) ≡ false)
      × ((not_positive license_limit ≡ true)
          ⊎ (less license_limit (capped_workers configured license_limit) ≡ false))
      × (not_positive (capped_workers configured license_limit) ≡ false)
unfolding capped_workers
capped_workers-fits (negsuc c) license_limit h = absurd (cc h)
capped_workers-fits (pos zero) license_limit h = absurd (cc h)
capped_workers-fits (pos (suc c)) (negsuc l) h = (ltb-same (suc c), inl refl, refl)
capped_workers-fits (pos (suc c)) (pos zero) h = (ltb-same (suc c), inl refl, refl)
capped_workers-fits (pos (suc c)) (pos (suc l)) h = elim (Bool-cases (ltb (suc l) (suc c))) [
  | inl e ↦
      let below : ltb (suc c) (suc l) ≡ false = ground arith in
      rw (e, capped_workers) (below, inr (ltb-same (suc l)), refl)
  | inr e ↦ rw (e, capped_workers) (ltb-same (suc c), inr e, refl)
]
