-- ===== src/Page/Tests.antt =====
-- Page counts and windows at concrete inputs.
use pine_vid_backend.Prelude.{ℕ, ◌≡◌, ◌*◌, refl, arith, List, [], ◌∷◌, take, drop}
use pine_vid_backend.Prelude.Int.{pos, negsuc, wrap64, div_pos, ◌+ℤ◌, ◌-ℤ◌, ◌*ℤ◌}
use pine_vid_backend.Effects.{ok, panic}
use pine_vid_backend.Page.{total_pages, page_offset, page_window, slice}
use pine_vid_backend.Page.Window.{page_window-eq}

abbrev five : List ℕ
five = 1 ∷ 2 ∷ 3 ∷ 4 ∷ 5 ∷ []

count_five : total_pages 5 (pos 2) ≡ pos 3
unfolding total_pages wrap64 div_pos ◌+ℤ◌ ◌-ℤ◌
count_five = refl

-- Near the top of int64 the sum wraps around, and the count is negative or zero.
count_wraps : total_pages 5 (pos 9223372036854775807) ≡ pos 0
unfolding total_pages wrap64 div_pos ◌+ℤ◌ ◌-ℤ◌
count_wraps = refl

second_page : page_window five (pos 2) (pos 2) ≡ ok (3 ∷ 4 ∷ [])
unfolding page_window page_offset slice wrap64 ◌+ℤ◌ ◌-ℤ◌ ◌*ℤ◌
second_page = refl

negative_limit : page_window five (pos 2) (negsuc 4) ≡ panic
unfolding page_window page_offset slice wrap64 ◌+ℤ◌ ◌-ℤ◌ ◌*ℤ◌
negative_limit = refl

page_window-eq_example : page_window five (pos 2) (pos 2) ≡ ok (take 2 (drop (1 * 2) five))
page_window-eq_example = page_window-eq five 1 2 (omega arith)
