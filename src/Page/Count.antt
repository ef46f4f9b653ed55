-- ===== src/Page/Count.antt =====
-- The page count is the ceiling of total / limit.
use pine_vid_backend.Prelude.{ℕ, zero, suc, ◌+◌, ◌-◌, ◌*◌, ◌/◌, ◌<◌, ◌≤◌, ◌≡◌, ap, arith}
use native.Mathlib.Nat.{mod-lt, div-add-mod}
use pine_vid_backend.Prelude.Int.{pos, two_63, wrap64-pos, div_pos, ◌+ℤ◌, ◌-ℤ◌}
use pine_vid_backend.Page.{total_pages}

sum_less_one : (total l : ℕ) → (pos total +ℤ pos (suc l)) -ℤ pos 1 ≡ pos (total + l)
unfolding ◌+ℤ◌ ◌-ℤ◌
sum_less_one total l = ground arith

-- In range the count is computed exactly.
pub total_pages-eq :
    (total limit : ℕ)
    → 0 < limit
    → total + limit ≤ two_63
    → total_pages total (pos limit) ≡ pos ((total + limit - 1) / limit)
unfolding total_pages
total_pages-eq total zero h r = absurd (omega arith)
total_pages-eq total (suc l) h r =
    rw (sum_less_one total l, wrap64-pos (total + l) (omega arith))
      (unfold div_pos in ap pos (ap (λ (t : ℕ). t / suc l) (omega arith)))

-- The pages counted are enough to show every item, and one page fewer is not.
pub total_pages-covers :
    (total limit : ℕ)
    → 0 < limit
    → total + limit ≤ two_63
    → (n : ℕ) × (total_pages total (pos limit) ≡ pos n)
      × (total ≤ n * limit)
      × (n * limit < total + limit)
total_pages-covers total zero h r = absurd (omega arith)
total_pages-covers total (suc l) h r =
    let n = total + suc l - 1 in
    let e = div-add-mod n (suc l) in
    let b = mod-lt n h in ((n / suc l), total_pages-eq total (suc l) h r, omega arith, omega arith)
