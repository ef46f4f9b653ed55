-- ===== src/Page/Window.antt =====
-- The windows of the pages cut a ranking into consecutive pieces.
use native.Mathlib.Nat.{suc-mul, zero-mul}
use pine_vid_backend.Prelude.{
  ℕ, zero, suc, ◌+◌, ◌-◌, ◌*◌, ◌<◌, ◌≤◌, ◌≡◌, refl, sym, ap, ◌∙◌, List, [], ◌++◌, inl, inr, arith,
  Bool-cases, ltb, leb, leb→le, length, take, drop, take_all, drop_all, take-nil, take-add,
  length-drop, All, take-All, drop-All, subst, ◌&&◌, if◌then◌else◌,
}
use pine_vid_backend.Prelude.Int.{
  leb_ℤ, ℤ, pos, negsuc, pos_part, two_63, wrap64-pos, wrap64-negsuc, +ℤ-pos, ◌-ℤ◌, ◌*ℤ◌,
}
use pine_vid_backend.Effects.{Result, ok, err, panic}
use pine_vid_backend.Page.{page_offset, slice, page_window, total_pages}
use pine_vid_backend.Page.Count.{total_pages-covers}

offset_exact : (q l : ℕ) → (pos (suc q) -ℤ pos 1) *ℤ pos l ≡ pos (q * l)
unfolding ◌-ℤ◌ ◌*ℤ◌
offset_exact q l = ground arith

pub page_offset-pos : (q l : ℕ) → q * l < two_63 → page_offset (pos (suc q)) (pos l) ≡ pos (q * l)
unfolding page_offset
page_offset-pos q l h = rw (offset_exact q l) (wrap64-pos (q * l) h)

zero_offset : (limit : ℕ) → 0 < limit → (pos 0 -ℤ pos 1) *ℤ pos limit ≡ negsuc (limit - 1)
unfolding ◌-ℤ◌ ◌*ℤ◌
zero_offset limit h = ground arith

page_offset-zero :
    (limit : ℕ) → 0 < limit → limit ≤ two_63 → page_offset (pos 0) (pos limit) ≡ negsuc (limit - 1)
unfolding page_offset
page_offset-zero limit h r = rw (zero_offset limit h) (wrap64-negsuc (limit - 1) (omega arith))

module _ {A : Type 0} where
  take_to_end :
      (xs : List A) (o l : ℕ)
      → length xs ≤ o + l
      → take (length xs - o) (drop o xs) ≡ take l (drop o xs)
  take_to_end xs o l h =
      let r = length-drop o xs in
      take_all (length xs - o) (drop o xs) (omega arith)
      ∙ sym (take_all l (drop o xs) (omega arith))

  window_inside :
      (xs : List A) (o l : ℕ)
      → o < length xs
      → slice xs (pos o) (if ltb (length xs) (o + l) then pos (length xs) else pos (o + l))
        ≡ ok (take l (drop o xs))
  unfolding slice
  window_inside xs o l h = elim (Bool-cases (ltb (length xs) (o + l))) [
    | inl past ↦ rw past (ground (arith, take_to_end xs o l))
    | inr fits ↦ rw fits (ground arith)
  ]

  -- Page `q + 1` of `limit` items, where the places up to its end do not overflow an int64, holds the
  -- items from `q * limit` on, `limit` at most, and the request does not panic.
  pub page_window-eq :
      (xs : List A) (q limit : ℕ)
      → q * limit + limit < two_63
      → page_window xs (pos (suc q)) (pos limit) ≡ ok (take limit (drop (q * limit) xs))
  unfolding page_window
  page_window-eq xs q limit h =
      rw (page_offset-pos q limit (omega arith)) (elim (Bool-cases (leb (length xs) (q * limit))) [
        | inl past ↦ rw past (
            ap ok (
              sym (take-nil limit)
              ∙ ap (take limit) (sym (drop_all (q * limit) xs (leb→le _ _ past)))))
        | inr inside ↦
            rw (inside, +ℤ-pos (q * limit) limit, wrap64-pos (q * limit + limit) h)
              (window_inside xs (q * limit) limit (ground arith))
      ])

  -- The items that a client sees who asks for the pages 1 to `n`, one after the other.
  abbrev pub append_results : Result (List A) → Result (List A) → Result (List A)
  append_results (ok xs) (ok ys) = ok (xs ++ ys)
  append_results (ok xs) (err e) = err e
  append_results (ok xs) panic = panic
  append_results (err e) r = err e
  append_results panic r = panic

  pub visit : List A → ℕ → ℕ → Result (List A)
  visit xs limit zero = ok []
  visit xs limit (suc n) =
      append_results (visit xs limit n) (page_window xs (pos (suc n)) (pos limit))

  visit-eq-take :
      (xs : List A) (limit n : ℕ) → n * limit < two_63 → visit xs limit n ≡ ok (take (n * limit) xs)
  unfolding visit
  visit-eq-take xs limit zero h = rw zero-mul
  visit-eq-take xs limit (suc n) h =
      rw
        (
          visit-eq-take xs limit n (omega arith),
          page_window-eq xs n limit (omega arith),
          suc-mul n limit,
        )
        (ap ok (sym (take-add (n * limit) limit xs)))

  slice-negsuc : (xs : List A) (a : ℕ) (end : ℤ) → slice xs (negsuc a) end ≡ panic
  unfolding slice
  slice-negsuc xs a (pos b) = refl
  slice-negsuc xs a (negsuc b) = refl

  panics_below :
      (xs : List A) (page limit : ℤ) (n : ℕ)
      → page_offset page limit ≡ negsuc n
      → page_window xs page limit ≡ panic
  unfolding page_window
  panics_below xs page limit n h = rw h (slice-negsuc xs n _)

  -- Visiting every page that the response counts shows each item once, in the order of the ranking.
  pub visit_all :
      (xs : List A) (limit n : ℕ)
      → 0 < limit
      → length xs + limit ≤ two_63
      → total_pages (length xs) (pos limit) ≡ pos n
      → visit xs limit n ≡ ok xs
  visit_all xs limit n h r e =
      let (m, em, cover, tight) = total_pages-covers (length xs) limit h r in
      let same : m ≡ n = ap pos_part (sym em ∙ e) in
      rw same at (visit-eq-take xs limit m (omega arith) ∙ ap ok (take_all (m * limit) xs cover))

  -- Page 0 panics, whatever the ranking and the (positive) limit: the slice starts below zero.
  pub page_window-zero_panics :
      (xs : List A) (limit : ℕ)
      → 0 < limit
      → limit ≤ two_63
      → page_window xs (pos 0) (pos limit) ≡ panic
  page_window-zero_panics xs limit h r =
      panics_below xs (pos 0) (pos limit) (limit - 1) (page_offset-zero limit h r)

module _ {A : Type 0} (P : A → Type 0) where
  slice-All : (xs : List A) (a b : ℤ) (ys : List A) → slice xs a b ≡ ok ys → All P xs → All P ys
  unfolding slice
  slice-All xs (pos a) (pos b) ys e h = elim (Bool-cases (leb a b && leb b (length xs))) [
    | inl inside ↦ subst (All P) (ground arith) (take-All P (b - a) (drop a xs) (drop-All P a xs h))
    | inr outside ↦ absurd (ground arith)
  ]
  slice-All xs (pos a) (negsuc b) ys e h = cc
  slice-All xs (negsuc a) (pos b) ys e h = cc
  slice-All xs (negsuc a) (negsuc b) ys e h = cc

  -- A window shows only items of the list.
  pub page_window-All :
      (xs : List A) (page limit : ℤ) (ys : List A)
      → page_window xs page limit ≡ ok ys
      → All P xs
      → All P ys
  unfolding page_window
  page_window-All xs page limit ys e h =
      elim (Bool-cases (leb_ℤ (pos (length xs)) (page_offset page limit))) [
        | inl past ↦ subst (All P) {x = []} (ground arith) tt
        | inr inside ↦ slice-All xs (page_offset page limit) _ ys (rw inside at e) h
      ]
