-- ===== src/Livestream/Channel/Key.antt =====
-- The stream key of a user.
use pine_vid_backend.Prelude.{String, Bool, true, ◌≡◌, refl, arith, some, inl, inr, ap, ◌∙◌}
use pine_vid_backend.Effects.{then-ok, Error, ok, err, Exec, pure, ◌>>=◌, ◌>>◌, outcome_cases}
use pine_vid_backend.Entity.Video.{Time}
use pine_vid_backend.Entity.Livestream.{Livestream, StreamKeyResponse}
use pine_vid_backend.Livestream.Deps.{UseCase, Live, outside, lookup, PendingEnd}
use pine_vid_backend.Livestream.Store.{IsLiveStore}
use pine_vid_backend.Video.Deps.{call, Sys}
use pine_vid_backend.Livestream.Session.{unpublish_stream, start_grace, authenticate_stream_key}
use pine_vid_backend.Livestream.Session.Grace.{
  unpublish_lem, start_grace-sys, start_grace-lookup, new_end,
}
use pine_vid_backend.Livestream.Channel.{
  get_stream_key, reset_stream_key, new_channel, to_stream_key_response, rekeyed, stream_key_text,
}

module _ {W : Type 0} (u : UseCase W) (laws : IsLiveStore u.repo) (user_id : String) where
  -- A user without a channel gets one on asking for the stream key, and keeps it: asking again
  -- returns the same response and writes nothing.
  pub get_stream_key_twice :
      (w w' : W) (e : Error) (r : StreamKeyResponse) (id uuid_prefix id' uuid_prefix' : String)
      (created updated created' updated' : Time)
      → u.repo.get_by_user_id user_id w ≡ err e
      → get_stream_key u user_id id uuid_prefix created updated w ≡ (ok r, w')
      → get_stream_key u user_id id' uuid_prefix' created' updated' w' ≡ (ok r, w')
  unfolding get_stream_key new_channel to_stream_key_response
  get_stream_key_twice w w' e r id uuid_prefix id' uuid_prefix' created updated created' updated'
        missing first =
      let fresh = new_channel id user_id uuid_prefix created updated in
      elim (outcome_cases (u.repo.store fresh w)) [
        | inl (a, t, stored) ↦
            let at : w' ≡ t = ground arith in
            let (row, found, same) = laws.get_user-store fresh w t e refl missing stored in
            ground
              (arith, found, same.stream_key, same.is_live, same.started_at, same.viewers_count)
        | inr (inl (x, t, failed)) ↦ absurd (ground arith)
        | inr (inr (t, failed)) ↦ absurd (ground arith)
      ]

module _ {W : Type 0} (u : UseCase W) (key user_id uuid_prefix : String) (now later : Time) where
  -- The streamer resets the key, and someone comes with the old one.
  abbrev pub reset_and_return : Exec (Live W) (String × Bool)
  reset_and_return = do
    r ← outside (call (reset_stream_key u user_id uuid_prefix now))
    admitted ← authenticate_stream_key u (record { stream_key = key }) later
    pure (r.stream_key, admitted)

  reset_lem :
      (mine : Livestream) (w w' : W)
      → u.repo.get_by_user_id user_id w ≡ ok mine
      → u.repo.update (rekeyed u mine uuid_prefix now) w ≡ (ok tt, w')
      → reset_stream_key u user_id uuid_prefix now w
        ≡ (ok (to_stream_key_response (rekeyed u mine uuid_prefix now)), w')
  unfolding reset_stream_key
  reset_lem mine w w' owned stored = ground arith

  reset_and_return_lem :
      (t : Live W) (mine : Livestream) (w' : W) (p : PendingEnd)
      → u.repo.get_by_user_id user_id t.sys.world ≡ ok mine
      → u.repo.update (rekeyed u mine uuid_prefix now) t.sys.world ≡ (ok tt, w')
      → lookup key t.pending ≡ some p
      → (reset_and_return t).0 ≡ ok (stream_key_text uuid_prefix, true)
  unfolding authenticate_stream_key to_stream_key_response
  reset_and_return_lem t mine w' p owned stored waits =
      ground (arith, reset_lem mine t.sys.world w' owned stored)

  -- A reset does not revoke the old key within the grace window: the session breaks off, the
  -- streamer resets the key, the response names the new one, and the old key is let in all the same.
  pub reset_key_still_admitted :
      (s : Live W) (ls mine : Livestream) (w' : W)
      → u.repo.get_by_stream_key key s.sys.world ≡ ok ls
      → u.repo.get_by_user_id user_id s.sys.world ≡ ok mine
      → u.repo.update (rekeyed u mine uuid_prefix now) s.sys.world ≡ (ok tt, w')
      → ((unpublish_stream u key >> reset_and_return) s).0 ≡ ok (stream_key_text uuid_prefix, true)
  reset_key_still_admitted s ls mine w' found owned stored =
      let world = ap (λ (x : Sys W). x.world) (start_grace-sys key s) in
      ap (λ p. p.0)
        (then-ok (unpublish_stream u key) reset_and_return tt s _ (unpublish_lem u key s ls found))
      ∙ reset_and_return_lem (start_grace key s) mine w' (new_end key s)
          (ap (λ w. u.repo.get_by_user_id user_id w) world ∙ owned)
          (ap (λ w. u.repo.update (rekeyed u mine uuid_prefix now) w) world ∙ stored)
          (start_grace-lookup key s)
