-- ===== src/Recommend/Paging.antt =====
-- The pages of the personalised feed.
use native.Mathlib.Nat.{zero-mul}
use pine_vid_backend.Prelude.{
  ℕ, zero, suc, ◌+◌, ◌*◌, ◌<◌, ◌≡◌, refl, arith, ap, sym, subst, ◌∙◌, List, take, drop,
  if◌then◌else◌, All,
}
use pine_vid_backend.Prelude.Int.{ℤ, pos, negsuc, two_63, ltb_ℤ}
use pine_vid_backend.Effects.{ok}
use pine_vid_backend.Page.{page_window}
use pine_vid_backend.Page.Window.{page_window-eq, page_window-All}
use pine_vid_backend.Recommend.{paginate}

module _ {A : Type 0} where
  -- A positive limit gives the window of the ranked feeds.
  paginate-eq-page_window :
      (xs : List A) (page : ℤ) (l : ℕ)
      → paginate xs page (pos (suc l))
        ≡ page_window xs (if ltb_ℤ page (pos 1) then pos 1 else page) (pos (suc l))
  unfolding paginate page_window
  paginate-eq-page_window xs page l = ground arith

  at_page :
      (xs : List A) (page : ℤ) (q l : ℕ)
      → (if ltb_ℤ page (pos 1) then pos 1 else page) ≡ pos (suc q)
      → q * suc l + suc l < two_63
      → paginate xs page (pos (suc l)) ≡ ok (take (suc l) (drop (q * suc l) xs))
  at_page xs page q l e small =
      paginate-eq-page_window xs page l
      ∙ (ap (λ p. page_window xs p (pos (suc l))) e ∙ page_window-eq xs q (suc l) small)

  first_page :
      (xs : List A) (page : ℤ) (l : ℕ)
      → (if ltb_ℤ page (pos 1) then pos 1 else page) ≡ pos 1
      → suc l < two_63
      → paginate xs page (pos (suc l)) ≡ ok (take (suc l) xs)
  first_page xs page l e small =
      at_page xs page 0 l e (omega (arith, zero-mul (suc l)))
      ∙ ap (λ n. ok (take (suc l) (drop n xs))) (zero-mul (suc l))

  everything :
      (xs : List A) (page : ℤ) (n : ℕ)
      → (paginate xs page (pos 0) ≡ ok xs) × (paginate xs page (negsuc n) ≡ ok xs)
  unfolding paginate
  everything xs page n = (refl, refl)

  -- Without overflow no page panics: page `q + 1` holds the items from `q * limit` on, `limit` at
  -- most; a page below 1 is the first page; and a limit that is not positive gives all items.
  pub paginate_pages :
      (xs : List A) (q l n : ℕ) (page : ℤ)
      → q * suc l + suc l < two_63
      → (paginate xs (pos (suc q)) (pos (suc l)) ≡ ok (take (suc l) (drop (q * suc l) xs)))
        × (paginate xs (pos 0) (pos (suc l)) ≡ ok (take (suc l) xs))
        × (paginate xs (negsuc n) (pos (suc l)) ≡ ok (take (suc l) xs))
        × (paginate xs page (pos 0) ≡ ok xs)
        × (paginate xs page (negsuc n) ≡ ok xs)
  paginate_pages xs q l n page small = (
    at_page xs (pos (suc q)) q l (ground arith) small,
    first_page xs (pos 0) l refl (omega arith),
    first_page xs (negsuc n) l refl (omega arith),
    (everything xs page n).0,
    (everything xs page n).1,
  )

pub ok_eq : {A : Type 0} {xs ys : A} → ok xs ≡ ok ys → xs ≡ ys
ok_eq e = cc

module _ {A : Type 0} (P : A → Type 0) where
  -- A page holds items of the ranking.
  pub paginate-All :
      (xs : List A) (page limit : ℤ) (ys : List A)
      → paginate xs page limit ≡ ok ys
      → All P xs
      → All P ys
  paginate-All xs page (pos zero) ys e h =
      subst (All P) (ok_eq (sym (everything xs page 0).0 ∙ e)) h
  paginate-All xs page (negsuc n) ys e h =
      subst (All P) (ok_eq (sym (everything xs page n).1 ∙ e)) h
  paginate-All xs page (pos (suc l)) ys e h =
      page_window-All P xs _ (pos (suc l)) ys (sym (paginate-eq-page_window xs page l) ∙ e) h
