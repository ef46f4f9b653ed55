-- ===== src/Recommend/Tests.antt =====
-- A feed of one video, with whole numbers for the scores and no sorting.
use pine_vid_backend.Prelude.{
  true, false, ℕ, ◌+◌, ◌≡◌, refl, arith, none, List, [], ◌∷◌, ltb, All, take-All, take, drop,
  length, length-take, subst, ◌≤◌,
}
use pine_vid_backend.Prelude.Int.{pos, negsuc, pos_part, wrap64, ◌*ℤ◌, ◌-ℤ◌, ◌+ℤ◌}
use pine_vid_backend.Effects.{Result, ok, err, panic}
use pine_vid_backend.Video.Deps.{VideoRepo}
use pine_vid_backend.Entity.Video.{Video}
use pine_vid_backend.Page.{PageResponse, to_page_response, total_pages, page_offset, slice}
use pine_vid_backend.Video.Feed.Visible.{IsVisibleItem, IsCatalog, Matches}
use pine_vid_backend.Video.Memory.{Rows, memory, memory-IsCatalog, keep, matches}
use pine_vid_backend.Video.Mapper.{to_video_response}
use pine_vid_backend.Prelude.Assoc.{mem_str}
use pine_vid_backend.Recommend.{
  Floats, UseCase, RecommendedVideoItem, paginate, get_personalized_feed, score, cold_score,
  to_item,
}
use pine_vid_backend.Recommend.Paging.{paginate_pages}
use pine_vid_backend.Recommend.Visible.{
  IsFeed, personalized_shows_visible, cold_start_pages_run_dry,
}

abbrev three : List ℕ
three = 5 ∷ 6 ∷ 7 ∷ []

paginate_pages_example :
    (paginate three (pos 2) (pos 2) ≡ ok (take 2 (drop 2 three)))
    × (paginate three (pos 0) (pos 2) ≡ ok (take 2 three))
    × (paginate three (negsuc 3) (pos 2) ≡ ok (take 2 three))
    × (paginate three (pos 4) (pos 0) ≡ ok three)
    × (paginate three (pos 4) (negsuc 3) ≡ ok three)
paginate_pages_example = paginate_pages three 1 1 3 (pos 4) (omega arith)

abbrev film : Video
film = record {
  id = "v1";
  user_id = "ann";
  user_name = "Ann";
  user_avatar = "";
  title = "A film";
  description = "";
  category = "Film";
  status = "complete";
  visibility = "public";
  raw_s3_key = "";
  hls_url = "";
  thumbnail_url = "";
  duration = "";
  is_reel = false;
  views = pos 3;
  created_at = 1;
  updated_at = 1;
}

abbrev whole : Floats ℕ
whole = record {
  one = 1;
  boost = 1000000;
  add = λ a b. a + b;
  baseline = pos_part;
  dot = λ a b. 0;
  is_finite = λ a. true;
  greater = λ a b. ltb b a;
}

-- The listing of the repository in memory, with the limit.
abbrev cut : ℕ → Result (List Video × ℕ) → Result (List Video × ℕ)
cut n (ok (videos, total)) = ok (take n videos, total)
cut n (err e) = err e
cut n panic = panic

abbrev limited_memory : VideoRepo Rows
limited_memory = record memory { list = λ f w. cut f.limit (memory.list f w) }

same_found : {a b : List Video × ℕ} → ok a ≡ ok b → a ≡ b
same_found e = cc

limited_memory-IsCatalog : IsCatalog limited_memory
limited_memory-IsCatalog = record {
  by_ids = memory-IsCatalog.by_ids;
  listed = λ f w found e.
      subst (λ (p : List Video × ℕ). All (Matches f) p.0) (same_found e)
        (take-All (Matches f) f.limit _ (memory-IsCatalog.listed f w _ refl));
}

abbrev use_case : UseCase Rows ℕ
use_case = record {
  floats = whole;
  sort = λ before xs. xs;
  video_repo = limited_memory;
  pref_repo = none;
  model = none;
}

use_case-IsFeed : IsFeed use_case
use_case-IsFeed = record {
  catalog = limited_memory-IsCatalog;
  limited = λ f w found e.
      subst (λ (p : List Video × ℕ). length p.0 ≤ f.limit) (same_found e)
        (ground (arith, length-take f.limit (keep (matches f) w)));
  sorted = λ before xs P h. h;
  length-sort = λ before xs. refl;
}

abbrev rows : Rows
rows = film ∷ []

abbrev item : RecommendedVideoItem ℕ
unfolding to_video_response
item = to_item (record { video = film; predicted_score = 1 })

abbrev first : PageResponse (RecommendedVideoItem ℕ)
unfolding to_page_response total_pages to_video_response
first = to_page_response (item ∷ []) 1 (pos 1) (pos 10)

personalized_shows_visible_example :
    All (λ i. IsVisibleItem i.video) first.data_items × (rows ≡ rows)
unfolding get_personalized_feed paginate keep score cold_score mem_str page_offset slice first item
    wrap64 ◌*ℤ◌ ◌-ℤ◌ ◌+ℤ◌
personalized_shows_visible_example =
    personalized_shows_visible use_case use_case-IsFeed "ann" (pos 1) (pos 10) rows rows first refl

cold_start_pages_run_dry_example :
    (res : PageResponse (RecommendedVideoItem ℕ)) × (get_personalized_feed use_case "ann"
        (pos 6)
        (pos 10)
        rows
      ≡ (ok res, rows))
    × (res.data_items ≡ [])
    × (res.pagination.total_items ≡ 1)
unfolding keep
cold_start_pages_run_dry_example =
    cold_start_pages_run_dry use_case use_case-IsFeed "ann" 5 9 1 rows rows refl refl (omega arith)
      (omega arith)
