-- ===== src/Paging/Bounds.antt =====
-- The bounds of a page, and where its offset leaves `int`.
use stds_backend_go.Prelude.{
  ◌≡◌, refl, ℕ, suc, ◌-◌, ◌*◌, ◌≤◌, ◌<◌, false, Option, arith, ok, ap, ◌∙◌,
}
use stds_backend_go.Prelude.Int.{
  ℤ, pos, negsuc, ltb_ℤ, wrap, wrap_id, wrap_half, mul_int_pos, sub_int_one, half_range, full_range,
}
use stds_backend_go.Paging.Defs.{
  default_page, default_limit, max_limit, or_default, normalize_pagination,
}

module _ (page limit : Option ℤ) (n m : ℕ) (page_at : or_default default_page page ≡ pos (suc n))
    (limit_at : or_default default_limit limit ≡ pos m) (at_least_one : 1 ≤ m)
    (at_most_100 : m ≤ 100) (fits : n < half_range) where
  accepted :
      normalize_pagination page limit
      ≡ ok (record { page = pos (suc n); limit = pos m; offset = wrap (pos (n * m)) })
  unfolding normalize_pagination
  accepted =
      let first : ltb_ℤ (pos (suc n)) (pos 1) ≡ false = ground arith in
      let low : ltb_ℤ (pos m) (pos 1) ≡ false = ground arith in
      let high : ltb_ℤ max_limit (pos m) ≡ false = ground arith in
      rw (page_at, limit_at, first, low, high, sub_int_one n fits, mul_int_pos n m) refl

  -- A page from 1 on with a limit from 1 to 100, or their defaults, is accepted, and its offset is the
  -- number of entries on the pages before it, if that is an `int`.
  pub pagination_exact :
      n * m < half_range
      → normalize_pagination page limit
        ≡ ok (record { page = pos (suc n); limit = pos m; offset = pos (n * m) })
  pagination_exact small =
      accepted
      ∙ ap (λ o. ok (record { page = pos (suc n); limit = pos m; offset = o }))
          (wrap_id (pos (n * m)) small)

  -- If that number is 2 ^ 63 or more (and less than 2 ^ 64), the page is still accepted, and its offset
  -- is negative.
  pub large_page_wraps :
      half_range ≤ n * m
      → n * m < full_range
      → normalize_pagination page limit
        ≡ ok
            (record { page = pos (suc n); limit = pos m; offset = negsuc (full_range - 1 - n * m) })
  large_page_wraps large fewer =
      accepted
      ∙ ap (λ o. ok (record { page = pos (suc n); limit = pos m; offset = o }))
          (wrap_half (n * m) large fewer)
