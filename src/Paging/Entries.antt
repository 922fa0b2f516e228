-- ===== src/Paging/Entries.antt =====
-- The pages of a list, and the entries on them.
use native.Mathlib.Nat.{
  suc-mul, le-mul_of_pos_right, lt_of_mul-lt-mul_right, div-mul-le_self, lt-div-mul-add,
}
use stds_backend_go.Prelude.{
  ◌≡◌, refl, ℕ, zero, suc, ◌+◌, ◌*◌, ◌/◌, ◌≤◌, ◌<◌, some, arith, ok, ok-injective, sym, ap, subst,
  ◌∙◌,
}
use stds_backend_go.Prelude.Int.{pos, half_range}
use stds_backend_go.Paging.Defs.{Pagination, normalize_pagination}
use stds_backend_go.Paging.Bounds.{pagination_exact}

-- The page n (from 0 on) with m entries a page is accepted, and the entry i is among those that a
-- query with its limit and offset returns.
pub record IsOnPage (n m i : ℕ) : Type 0 where
  pub page : Pagination
  pub is_accepted : normalize_pagination (some (pos (suc n))) (some (pos m)) ≡ ok page
  pub limit : page.limit ≡ pos m
  pub offset : ℕ
  pub offset_is : page.offset ≡ pos offset
  pub from : offset ≤ i
  pub to : i < offset + m

module _ (m i : ℕ) (at_least_one : 1 ≤ m) (at_most_100 : m ≤ 100) where
  positive : zero < m
  positive = omega arith

  page_at :
      (n : ℕ)
      → n * m < half_range
      → normalize_pagination (some (pos (suc n))) (some (pos m))
        ≡ ok (record { page = pos (suc n); limit = pos m; offset = pos (n * m) })
  page_at n small =
      let fits : n ≤ n * m = le-mul_of_pos_right n positive in
      pagination_exact (some (pos (suc n))) (some (pos m)) n m refl refl at_least_one at_most_100
        (omega arith) small

  offset_of : (n : ℕ) → n * m < half_range → (p : IsOnPage n m i) → p.offset ≡ n * m
  offset_of n small p =
      let same = ok-injective (sym p.is_accepted ∙ page_at n small) in
      let at : pos p.offset ≡ pos (n * m) =
        sym p.offset_is ∙ ap (λ (x : Pagination). x.offset) same in
      cc at

  not_before : (n k : ℕ) → n * m ≤ i → i < k * m + m → n < suc k
  not_before n k from to =
      let end : suc k * m ≡ k * m + m = suc-mul k m in
      let below : n * m < suc k * m = omega arith in lt_of_mul-lt-mul_right m below

  -- An entry is on exactly one page, of the pages whose offset is an `int`.
  pub page_of_entry :
      i < half_range
      → (n : ℕ) × IsOnPage n m i × ((k : ℕ) → k * m < half_range → IsOnPage k m i → k ≡ n)
  page_of_entry fits =
      let n = i / m in
      let from : n * m ≤ i = div-mul-le_self i m in
      let to : i < n * m + m = lt-div-mul-add positive in
      let small : n * m < half_range = omega arith in
      (
        n,
        record {
          page = record { page = pos (suc n); limit = pos m; offset = pos (n * m) };
          is_accepted = page_at n small;
          limit = refl;
          offset = n * m;
          offset_is = refl;
          from = from;
          to = to;
        },
        λ k k_small p.
            let at = offset_of k k_small p in
            let k_from : k * m ≤ i = subst (λ o. o ≤ i) at p.from in
            let k_to : i < k * m + m = subst (λ o. i < o + m) at p.to in
            let low = not_before n k from k_to in
            let high = not_before k n k_from to in omega arith,
      )
