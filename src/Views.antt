-- ===== src/Views.antt =====
-- View counting (internal/repo/persistent/view/view.go): pending views in Redis, the daily tallies of
-- the trending feed, and the batch that moves the pending views to Postgres.
pub mod Parse
pub mod Keys
pub mod Counting
mod Tests
pub mod Memory
pub mod Pending
use pine_vid_backend.Prelude.{
  String, Bool, true, false, ◌||◌, ◌<>◌, ◌≡◌, ℕ, Option, none, some, List, [], ◌∷◌, ◌++◌, map,
  str_eq, if◌then◌else◌, ltb,
}
use Prim.Native.Nat.{zero, suc, ◌-◌}
use Prim.Native.String.{len, slice}
use text.Mathlib.Text.{starts_with}
use pine_vid_backend.Prelude.Int.{ℤ, pos, leb_ℤ, ltb_ℤ, pos_part}
use pine_vid_backend.Effects.{
  Result, ok, err, panic, Exec, pure, query, wrapping, ignoring, wrap, ok_or, ◌>>=◌, ◌>>◌,
}
use pine_vid_backend.Entity.Video.{Time}
use pine_vid_backend.Livestream.Duration.{show}
use pine_vid_backend.Views.Parse.{Parsed, value, parse_int, parsed_value}

-- The commands of Redis that the repository sends. `tally` is the pipeline of ZINCRBY and EXPIRE, and
-- `set_nx` sets "1" for 60 seconds.
pub record Redis (W : Type 0) : Type 0 where
  pub set_nx : String → Exec W Bool
  pub get : String → W → Result String
  pub incr : String → Exec W ℤ
  pub decr_by : String → ℤ → Exec W ℤ
  pub tally : String → String → Exec W Unit
  pub z_union_store : String → List String → Exec W Unit
  pub z_rev_range : String → ℤ → ℤ → W → Result (List String)
  pub del : String → Exec W Unit
  pub scan : ℕ → String → W → Result (List String × ℕ)

-- The statements for Postgres: `UPDATE videos SET views = views + n WHERE id = …` by itself, and in a
-- transaction.
pub record Postgres (W : Type 0) : Type 0 where
  pub add_views : String → ℤ → Exec W Unit
  pub begin : Exec W Unit
  pub tx_add_views : String → ℤ → Exec W Unit
  pub commit : Exec W Unit
  pub rollback : Exec W Unit

-- `fingerprint` is the hex form of the first 8 bytes of the SHA-256 hash, `day now i` the UTC date of
-- the `i`-th day before `now`.
pub record Repo (W : Type 0) : Type 0 where
  pub postgres : Postgres W
  pub redis : Option (Redis W)
  pub fingerprint : String → String
  pub day : Time → ℕ → String

abbrev pub view_prefix : String
view_prefix = "video_views:"

unfoldable pub view_key : String → String
view_key video_id = view_prefix <> video_id

-- `strings.TrimPrefix`
unfoldable pub trim_prefix : String → String → String
trim_prefix s p = if starts_with s p then slice s (len p) (len s) else s

module _ {W : Type 0} (r : Repo W) where
  unfoldable pub trending_key : Time → ℕ → String
  trending_key now i = "trending:views:" <> r.day now i

  unfoldable pub dedup_key : String → String → String → String
  dedup_key video_id client_ip device_id =
      "view_dedup:" <> (video_id <> (":" <> r.fingerprint (client_ip <> (":" <> device_id))))

  unfoldable pub record_view_fallback : String → Exec W (Bool × ℤ)
  record_view_fallback video_id = do r.postgres.add_views video_id (pos 1); pure (true, pos 1)

module _ {W : Type 0} (r : Repo W) (redis : Redis W) where
  -- A duplicate returns the counter as it is; an error of GET or of the number is dropped.
  abbrev pub current_views : String → W → ℤ
  current_views video_id w = parsed_value (parse_int (ok_or "" (redis.get (view_key video_id) w)))

  unfoldable pub count_view : String → Time → Exec W (Bool × ℤ)
  count_view video_id now = do
    new_views ← wrapping "ViewRepo - RecordView - Incr" (redis.incr (view_key video_id))
    ignoring (redis.tally (trending_key r now 0) video_id)
    pure (true, new_views)

  unfoldable pub record_in_redis : String → String → String → Time → Exec W (Bool × ℤ)
  record_in_redis video_id client_ip device_id now = do
    is_new ←
        wrapping "ViewRepo - RecordView - SetNX"
          (redis.set_nx (dedup_key r video_id client_ip device_id))
    (if is_new then count_view video_id now else λ w. pure (false, current_views video_id w) w)

abbrev pub record_with :
    {W : Type 0} → Repo W → Option (Redis W) → String → String → String → Time → Exec W (Bool × ℤ)
record_with r none video_id client_ip device_id now = record_view_fallback r video_id
record_with r (some redis) video_id client_ip device_id now =
    record_in_redis r redis video_id client_ip device_id now

unfoldable pub record_view :
    {W : Type 0} → Repo W → String → String → String → Time → Exec W (Bool × ℤ)
record_view r video_id client_ip device_id now =
    record_with r r.redis video_id client_ip device_id now

-- The function that a `defer` runs when the body has returned; its error is dropped.
abbrev pub deferring : {W A : Type 0} → Exec W Unit → Exec W A → Exec W A
deferring last m w = let (result, w') = m w in (result, (last w').1)

-- The keys of the last `days` days, today's first.
unfoldable pub day_keys : {W : Type 0} → Repo W → Time → ℕ → ℕ → List String
day_keys r now i zero = []
day_keys r now i (suc days) = trending_key r now i ∷ day_keys r now (suc i) days

module _ {W : Type 0} (redis : Redis W) where
  abbrev pub ranked : String → ℤ → Exec W (List String)
  ranked key limit =
      wrapping "ViewRepo - GetTrendingVideoIDs - ZRevRange"
        (query (redis.z_rev_range key (pos 0) (pos (pos_part limit - 1))))

  -- One key is ranked as it is; several are merged under a key that is deleted after the ranking.
  unfoldable pub rank_keys : Time → List String → ℤ → Exec W (List String)
  rank_keys now [] limit = pure []
  rank_keys now (key ∷ []) limit = ranked key limit
  rank_keys now (key ∷ key' ∷ keys) limit =
      let union = "trending:union:" <> show now in
      (wrapping "ViewRepo - GetTrendingVideoIDs - ZUnionStore"
          (redis.z_union_store union (key ∷ key' ∷ keys))
        >> deferring (ignoring (redis.del union)) (ranked union limit))

unfoldable pub get_trending_video_ids : {W : Type 0} → Repo W → Time → ℤ → ℤ → Exec W (List String)
get_trending_video_ids r now days limit = elim r.redis [
  | none ↦ pure []
  | some redis ↦
      if leb_ℤ days (pos 0) || leb_ℤ limit (pos 0)
      then pure []
      else rank_keys redis now (day_keys r now 0 (pos_part days)) limit
]

unfoldable pub get_pending_views_for_video : {W : Type 0} → Repo W → String → W → ℤ
get_pending_views_for_video r video_id w = elim r.redis [
  | none ↦ pos 0
  | some redis ↦ elim (redis.get (view_key video_id) w) [
    | ok count ↦ parsed_value (parse_int count)
    | err _ ↦ pos 0
    | panic ↦ pos 0
  ]
]

-- One video of the batch. The counter is lowered at once, and an error of that is dropped.
abbrev pub lower : {W : Type 0} → Option (Redis W) → String → ℤ → Exec W Unit
lower none video_id n = pure tt
lower (some redis) video_id n = ignoring (redis.decr_by (view_key video_id) n)

module _ {W : Type 0} (r : Repo W) where
  unfoldable pub sync_each : List (String × ℤ) → Exec W Unit
  sync_each [] = pure tt
  sync_each ((video_id, n) ∷ pending) = do
    wrapping "ViewRepo - SyncBatchViewsToPostgres - Exec" (r.postgres.tx_add_views video_id n)
    lower r.redis video_id n
    sync_each pending

  -- The map of the pending views is a list with an entry for each video, in the order of the `range`.
  unfoldable pub sync_batch_views_to_postgres : List (String × ℤ) → Exec W Unit
  sync_batch_views_to_postgres [] = pure tt
  sync_batch_views_to_postgres (entry ∷ pending) = do
    wrapping "ViewRepo - SyncBatchViewsToPostgres - Begin" r.postgres.begin
    deferring (ignoring r.postgres.rollback) (do
      sync_each (entry ∷ pending)
      wrapping "ViewRepo - SyncBatchViewsToPostgres - Commit" r.postgres.commit)
