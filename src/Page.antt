-- ===== src/Page.antt =====
-- Pagination: the response type of internal/controller/restapi/v1/response/common.go, the page
-- count of internal/mapper, and the window that the ranked feeds of
-- internal/usecase/video/video.go cut out of a ranking.
pub mod Count
pub mod Window
mod Tests
use pine_vid_backend.Prelude.{
  ℕ, zero, suc, ◌-◌, Bool, true, List, [], ◌&&◌, leb, if◌then◌else◌, length, take, drop,
}
use pine_vid_backend.Prelude.Int.{ℤ, pos, negsuc, ◌+ℤ◌, ◌-ℤ◌, ◌*ℤ◌, leb_ℤ, ltb_ℤ, wrap64, div_pos}
use pine_vid_backend.Effects.{Result, ok, panic}

pub record PaginationMeta : Type 0 where
  pub total_items : ℕ
  pub total_pages : ℤ
  pub current_page : ℤ
  pub limit : ℤ

pub record PageResponse (A : Type 0) : Type 0 where
  pub success : Bool
  pub data_items : List A
  pub pagination : PaginationMeta

-- `totalPages`: 0, or `(totalItems + limit - 1) / limit` in 64-bit arithmetic if `limit > 0`.
unfoldable pub total_pages : ℕ → ℤ → ℤ
total_pages total (pos zero) = pos 0
total_pages total (pos (suc l)) = div_pos (wrap64 (pos total +ℤ pos (suc l) -ℤ pos 1)) (suc l)
total_pages total (negsuc l) = pos 0

-- `To…PageResponse`, on items that are mapped already.
unfoldable pub to_page_response : {A : Type 0} → List A → ℕ → ℤ → ℤ → PageResponse A
to_page_response items total page limit = record {
  success = true;
  data_items = items;
  pagination = record {
    total_items = total;
    total_pages = total_pages total limit;
    current_page = page;
    limit = limit;
  };
}

-- `offset := (page - 1) * limit` on int64.
unfoldable pub page_offset : ℤ → ℤ → ℤ
page_offset page limit = wrap64 ((page -ℤ pos 1) *ℤ limit)

-- `xs[a:b]`, for a slice whose capacity is its length.
unfoldable pub slice : {A : Type 0} → List A → ℤ → ℤ → Result (List A)
slice xs (pos a) (pos b) =
    if leb a b && leb b (length xs) then ok (take (b - a) (drop a xs)) else panic
slice xs (pos a) (negsuc b) = panic
slice xs (negsuc a) (pos b) = panic
slice xs (negsuc a) (negsuc b) = panic

-- The window of one page: nothing past the end, else `xs[offset:end]`.
unfoldable pub page_window : {A : Type 0} → List A → ℤ → ℤ → Result (List A)
page_window xs page limit =
    let total = pos (length xs) in
    let offset = page_offset page limit in
    if leb_ℤ total offset
    then ok []
    else (let end = wrap64 (offset +ℤ limit) in
        slice xs offset (if ltb_ℤ total end then total else end))
