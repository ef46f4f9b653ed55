-- ===== src/Livestream/Channel.antt =====
-- The streamer's own calls and the public pages (internal/usecase/livestream/livestream.go): the
-- stream key, the title and the category, one stream, and the list of the streams that are live.
pub mod Key
use pine_vid_backend.Prelude.{
  String, ◌<>◌, Bool, true, false, Option, none, some, List, map, str_eq, if◌then◌else◌,
}
use pine_vid_backend.Prelude.Int.{ℤ, pos}
use pine_vid_backend.Effects.{
  Error, Result, ok, err, panic, Exec, pure, raise, query, wrapping, ok_or, ◌>>=◌, ◌>>◌,
  livestream_not_found, wrap,
}
use pine_vid_backend.Entity.Video.{Time}
use pine_vid_backend.Entity.Livestream.{
  Livestream, LivestreamResponse, StreamKeyResponse, UpdateLivestreamInfo,
}
use pine_vid_backend.Page.{PageResponse, page_offset}
use pine_vid_backend.Video.Mapper.{or_keep}
use pine_vid_backend.Livestream.Deps.{UseCase, FollowRepo}
use pine_vid_backend.Livestream.Mapper.{to_livestream_response, to_livestream_page_response}

abbrev pub stream_key_text : String → String
stream_key_text uuid_prefix = "sk_live_" <> uuid_prefix

unfoldable pub new_channel : String → String → String → Time → Time → Livestream
new_channel id user_id uuid_prefix created updated = record {
  id = id;
  user_id = user_id;
  user_name = "";
  user_avatar = "";
  stream_key = stream_key_text uuid_prefix;
  title = "My Livestream";
  category = "General";
  is_live = false;
  hls_url = "";
  viewers_count = pos 0;
  started_at = none;
  ended_at = none;
  created_at = created;
  updated_at = updated;
}

unfoldable pub to_stream_key_response : Livestream → StreamKeyResponse
to_stream_key_response ls = record {
  server_url = "rtmp://live.pipevid.com/live";
  stream_key = ls.stream_key;
  is_live = ls.is_live;
  started_at = ls.started_at;
  viewers_count = ls.viewers_count;
}

abbrev pub with_followers :
    {W : Type 0} → Option (FollowRepo W) → W → LivestreamResponse → LivestreamResponse
with_followers none w r = r
with_followers (some follows) w r =
    let streamer = r.streamer in
    record r {
      streamer = record streamer {
        followers_count = ok_or streamer.followers_count (follows.count_followers streamer.id w);
      };
    }

-- `errors.Is(err, entity.ErrLivestreamNotFound)`
abbrev pub is_not_found : Error → Bool
is_not_found livestream_not_found = true
is_not_found (wrap text e) = is_not_found e
is_not_found _ = false

module _ {W : Type 0} (u : UseCase W) where
  -- What `GetStreamKey` does if the user's row cannot be read.
  abbrev pub create_channel :
      Error → String → String → String → Time → Time → Exec W StreamKeyResponse
  create_channel e user_id id uuid_prefix created updated =
      if is_not_found e
      then (do
        let fresh = new_channel id user_id uuid_prefix created updated
        wrapping "LivestreamUseCase - GetStreamKey - Store" (u.repo.store fresh)
        pure (to_stream_key_response fresh))
      else raise e

  -- `uuid_prefix` is the first 18 bytes of a new UUID, `id` another new UUID.
  unfoldable pub get_stream_key : String → String → String → Time → Time → Exec W StreamKeyResponse
  get_stream_key user_id id uuid_prefix created updated w = elim (u.repo.get_by_user_id user_id w) [
    | ok ls ↦ (ok (to_stream_key_response ls), w)
    | err e ↦ create_channel e user_id id uuid_prefix created updated w
    | panic ↦ (panic, w)
  ]

  abbrev pub rekeyed : Livestream → String → Time → Livestream
  rekeyed ls uuid_prefix now = record ls {
    stream_key = stream_key_text uuid_prefix;
    updated_at = now;
  }

  unfoldable pub reset_stream_key : String → String → Time → Exec W StreamKeyResponse
  reset_stream_key user_id uuid_prefix now = do
    ls ← query (u.repo.get_by_user_id user_id)
    let fresh = rekeyed ls uuid_prefix now
    wrapping "LivestreamUseCase - ResetStreamKey - Update" (u.repo.update fresh)
    pure (to_stream_key_response fresh)

  unfoldable pub update_stream_info :
      String → UpdateLivestreamInfo → Time → Exec W LivestreamResponse
  update_stream_info user_id req now = do
    ls ← query (u.repo.get_by_user_id user_id)
    let ls' = record ls {
      title = or_keep req.title ls.title;
      category = or_keep req.category ls.category;
      updated_at = now;
    }
    wrapping "LivestreamUseCase - UpdateStreamInfo - Update" (u.repo.update ls')
    pure (to_livestream_response ls')

  unfoldable pub get_stream_by_id : String → Exec W LivestreamResponse
  get_stream_by_id id w =
      (do
        ls ← query (u.repo.get_by_id id)
        pure (with_followers u.follow_repo w (to_livestream_response ls)))
        w

  unfoldable pub list_active_streams : String → ℤ → ℤ → Exec W (PageResponse LivestreamResponse)
  list_active_streams category page limit w =
      (do
        found ← query (u.repo.list_active category limit (page_offset page limit))
        let page_resp = to_livestream_page_response found.0 found.1 page limit
        pure (record page_resp {
          data_items = map (with_followers u.follow_repo w) page_resp.data_items;
        }))
        w
