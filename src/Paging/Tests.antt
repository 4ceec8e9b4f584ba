-- ===== src/Paging/Tests.antt =====
-- Pages and cursors at concrete inputs.
use lazypock.Base.{◌+◌, ◌/◌, ◌≤◌, ◌<◌, ◌^◌, ◌≡◌, ◌↔◌, refl, arith, false, ok}
use lazypock.Base.Text.{codes, trim_end, is_whitespace}
use lazypock.Paging.{PageRequest, ℤ, limit, offset, total_pages, encode, decode}
use lazypock.Paging.Pages.{IsValid, row-page_iff, offset-total_pages_iff, offset-fits}
use lazypock.Paging.Cursors.{decode-encode}

abbrev third : PageRequest
third = record { page = 3; per_page = 10; skip_total = false }

third-IsValid : IsValid third
third-IsValid = record { first = omega arith; some_rows = omega arith; few_rows = omega arith }

row-page_iff_example :
    (((offset third ≤ 25) × (25 < offset third + limit third))
      ↔ (third.page ≡ 25 / third.per_page + 1))
    × (25 / third.per_page + 1 ≤ total_pages third 42)
row-page_iff_example = row-page_iff third 25 42 third-IsValid (omega arith)

offset-total_pages_iff_example : (offset third < 42) ↔ (third.page ≤ total_pages third 42)
offset-total_pages_iff_example = offset-total_pages_iff third 42 third-IsValid

offset-fits_example : offset third + limit third < 2 ^ 63
offset-fits_example = offset-fits third third-IsValid (omega arith)

decode-encode_example :
    decode (encode (record { created_micros = ℤ.pos 1700000000000000; id = codes "abc.def" }))
    ≡ ok (record { created_micros = ℤ.pos 1700000000000000; id = codes "abc.def" })
decode-encode_example =
    decode-encode 1700000000000000 (codes "abc.def") (omega arith) refl
      (unfold trim_end is_whitespace in refl)
