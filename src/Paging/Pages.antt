-- ===== src/Paging/Pages.antt =====
-- The pages of a listing cover its rows, each once.
use lazypock.Base.{ℕ, ◌^◌, ◌+◌, ◌-◌, ◌*◌, ◌/◌, ◌≤◌, ◌<◌, Bool, Option, ◌≡◌, ◌↔◌, refl, arith, ok}
use native.Mathlib.Nat.{mul-le-mul, le-div_iff_mul-le, div-lt_iff_lt-mul}
use lazypock.Paging.{
  PageRequest, new_page, limit, offset, total_pages, unwrap_or, default_per_page, max_per_page,
}

-- What `PageRequest::new` ensures.
pub record IsValid (r : PageRequest) : Type 0 where
  pub first : 1 ≤ r.page
  pub some_rows : 1 ≤ r.per_page
  pub few_rows : r.per_page ≤ max_per_page

-- A page request is accepted exactly when the page is at least 1 and the page size is between 1
-- and `max_per_page`, each with its default where it is missing, and it is then the one that was
-- asked for.
pub new_page-eq-ok_iff :
    (page per_page : Option ℕ) (skip_total : Bool) (r : PageRequest)
    → (new_page page per_page skip_total ≡ ok r) ↔ (
        (r ≡ record {
          page = unwrap_or page 1;
          per_page = unwrap_or per_page default_per_page;
          skip_total = skip_total;
        })
        × (1 ≤ r.page)
        × (1 ≤ r.per_page)
        × (r.per_page ≤ max_per_page))
unfolding new_page
new_page-eq-ok_iff page per_page skip_total r = ground arith

-- A page is its place after the first, `q`, and its size, `n`.
at_row : (q n i : ℕ) → 1 ≤ n → ((q * n ≤ i) × (i < q * n + n)) ↔ (q ≡ i / n)
at_row q n i h =
    let low = le-div_iff_mul-le {k = n} {x = q} {y = i} h in
    let high = div-lt_iff_lt-mul {k = n} {x = i} {y = q + 1} h in
    let next : (q + 1) * n ≡ q * n + n = omega arith in ground (arith, low, high, next)

before_end : (q n total : ℕ) → 1 ≤ n → (q * n < total) ↔ (q + 1 ≤ (total + n - 1) / n)
before_end q n total h =
    let covers = le-div_iff_mul-le {k = n} {x = q + 1} {y = total + n - 1} h in
    let next : (q + 1) * n ≡ q * n + n = omega arith in ground (arith, covers, next)

-- Of a valid request, a row of the listing stands on the requested page exactly if the page is
-- the row's number over the page size and one more, and that page is among those that are
-- counted.
pub row-page_iff :
    (r : PageRequest) (i total : ℕ)
    → IsValid r
    → i < total
    → (((offset r ≤ i) × (i < offset r + limit r)) ↔ (r.page ≡ i / r.per_page + 1))
      × (i / r.per_page + 1 ≤ total_pages r total)
unfolding offset limit total_pages
row-page_iff r i total v h =
    let here = at_row (r.page - 1) r.per_page i v.some_rows in
    let mine = at_row (i / r.per_page) r.per_page i v.some_rows in
    let last = before_end (i / r.per_page) r.per_page total v.some_rows in
    ground (arith, here, mine.1 refl, last, v.first)

-- A valid request asks for a page that has a row exactly if it is among the pages that are
-- counted.
pub offset-total_pages_iff :
    (r : PageRequest) (total : ℕ) → IsValid r → (offset r < total) ↔ (r.page ≤ total_pages r total)
unfolding offset total_pages
offset-total_pages_iff r total v =
    ground (arith, before_end (r.page - 1) r.per_page total v.some_rows, v.first)

-- Of a valid request with a page of 32 bits, the offset and the limit together stay below 2 ^ 63.
pub offset-fits : (r : PageRequest) → IsValid r → r.page < 2 ^ 32 → offset r + limit r < 2 ^ 63
unfolding offset limit
offset-fits r v h =
    let low : r.page < 4294967296 = h in
    let most =
      mul-le-mul {n₁ = r.page - 1} {m₁ = r.per_page} {n₂ = 4294967296} {m₂ = 500}
        (omega (arith, low)) v.few_rows in
    let fits : (r.page - 1) * r.per_page + r.per_page < 9223372036854775808 =
      omega (arith, most, v.few_rows) in
    fits
