-- ===== src/Livestream/Reconcile/Spares.antt =====
-- The reconciliation leaves alone what is streaming or may come back.
use pine_vid_backend.Prelude.{
  String, Bool, true, ◌||◌, ◌≡◌, ◌≢◌, refl, arith, List, [], ◌∷◌, All, All-imp, Bool-cases, inl,
  inr, sym, subst, some, ap, ◌∙◌, is_some,
}
use pine_vid_backend.Prelude.Int.{pos}
use pine_vid_backend.Effects.{
  Result, ok, err, panic, Exec, wrapping, wrap_result, ignoring, ◌>>=◌, Result-cases,
}
use pine_vid_backend.Entity.Video.{Time}
use pine_vid_backend.Entity.Livestream.{Livestream}
use pine_vid_backend.Video.Deps.{Sys, ask, call}
use pine_vid_backend.Livestream.Deps.{UseCase, Live, SrsClient, lookup, outside}
use pine_vid_backend.Livestream.Store.{IsLiveStore}
use pine_vid_backend.Livestream.Session.{went_offline}
use pine_vid_backend.Livestream.Reconcile.{
  reconcile_scan_limit, reconcile_row, reconcile_rows, reconcile_listed, reconcile_with,
  reconcile_live_streams,
}

module _ {W : Type 0} (P : Live W → Type 0) where
  -- A predicate on the state that the first call ends in and that the second keeps.
  pub bind-Keeps :
      {A B : Type 0} (s : Live W) (p : Result A × Live W) (f : A → Exec (Live W) B)
      → P p.1
      → ((a : A) (t : Live W) → p ≡ (ok a, t) → P t → P (f a t).1)
      → P (((λ _. p) >>= f) s).1
  bind-Keeps s (ok a, t) f first rest = rest a t refl first
  bind-Keeps s (err e, t) f first rest = first
  bind-Keeps s (panic, t) f first rest = first

pub ignoring-state : {S A : Type 0} (s : S) (p : Result A × S) → (ignoring (λ _. p) s).1 ≡ p.1
ignoring-state s (ok a, t) = refl
ignoring-state s (err e, t) = refl
ignoring-state s (panic, t) = refl

module _ {W : Type 0} (u : UseCase W) (laws : IsLiveStore u.repo) (now : Time)
    (active : String → Bool) (v : Livestream) (s : Live W)
    (spared : (active v.stream_key || is_some (lookup v.stream_key s.pending)) ≡ true) where
  -- The row is as it was, and so are the pending ends.
  abbrev IsSpared : Live W → Type 0
  IsSpared t = (t.pending ≡ s.pending) × (u.repo.get_by_id v.id t.sys.world ≡ ok v)

  reconcile_row-IsSpared :
      (ls : Livestream) (t : Live W)
      → (ls.id ≡ v.id → ls ≡ v)
      → IsSpared t
      → IsSpared (reconcile_row u active now ls t).1
  unfolding reconcile_row went_offline
  reconcile_row-IsSpared ls t same kept = elim (Bool-cases (active ls.stream_key)) [
    | inl on ↦ rw on kept
    | inr off ↦ elim (Bool-cases (is_some (lookup ls.stream_key t.pending))) [
      | inl grace ↦ rw (off, grace) kept
      | inr stuck ↦
          let apart : ls.id ≢ v.id = λ e.
            let k : ls.stream_key ≡ v.stream_key = ap (λ (x : Livestream). x.stream_key) (same e) in
            let p : lookup ls.stream_key t.pending ≡ lookup v.stream_key s.pending =
              cc (kept.0, k) in
            ground (arith, spared, off, stuck, ap active k, ap is_some p) in
          rw (off, stuck)
            (
              kept.0,
              ap (λ w. u.repo.get_by_id v.id w)
                    (ap (λ (x : Sys W). x.world)
                      (ignoring-state t.sys (call (u.repo.update (went_offline ls now)) t.sys)))
                  ∙ (laws.get-update_other v.id (went_offline ls now) t.sys.world apart ∙ kept.1),
            )
    ]
  ]

  reconcile_rows-IsSpared :
      (rows : List Livestream) (t : Live W)
      → All (λ ls. ls.id ≡ v.id → ls ≡ v) rows
      → IsSpared t
      → IsSpared (reconcile_rows u active now rows t).1
  unfolding reconcile_rows
  reconcile_rows-IsSpared [] t same kept = kept
  reconcile_rows-IsSpared (ls ∷ rows) t same kept =
      bind-Keeps IsSpared t (reconcile_row u active now ls t)
        (λ _. reconcile_rows u active now rows) (reconcile_row-IsSpared ls t same.0 kept)
        (λ _ t' _ kept'. reconcile_rows-IsSpared rows t' same.1 kept')

module _ {W A B : Type 0} (P : Live W → Type 0) (s : Live W) (text : String) (q : W → Result A)
    (f : A → Exec (Live W) B) where
  asked :
      (r : Result A)
      → q s.sys.world ≡ r
      → wrapping text (outside (ask q)) s ≡ (wrap_result text r, s)
  asked (ok a) e = rw e refl
  asked (err x) e = rw e refl
  asked panic e = rw e refl

  bind-result :
      (r : Result A)
      → q s.sys.world ≡ r
      → P (((λ _. (wrap_result text r, s)) >>= f) s).1
      → P ((wrapping text (outside (ask q)) >>= f) s).1
  bind-result r e h = subst (λ p. P (((λ _. p) >>= f) s).1) (sym (asked r e)) h

  -- A query whose result is known.
  pub bind-asked :
      (a : A) → q s.sys.world ≡ ok a → P (f a s).1 → P ((wrapping text (outside (ask q)) >>= f) s).1
  bind-asked a e h = bind-result (ok a) e h

  -- A query that may fail.
  pub bind-asking :
      P s
      → ((a : A) → q s.sys.world ≡ ok a → P (f a s).1)
      → P ((wrapping text (outside (ask q)) >>= f) s).1
  bind-asking failed h = elim (Result-cases (q s.sys.world)) [
    | inl (a, e) ↦ bind-asked a e (h a e)
    | inr (inl (x, e)) ↦ bind-result (err x) e failed
    | inr (inr e) ↦ bind-result panic e failed
  ]

module _ {W : Type 0} (u : UseCase W) (laws : IsLiveStore u.repo) (now : Time) (s : Live W) where
  -- The reconciliation does not touch the row of a stream that SRS receives data for, or whose key
  -- is in the grace window: the row is as it was, whatever becomes of the other rows.
  pub reconcile_spares :
      (srs : SrsClient W) (active : String → Bool) (v : Livestream)
      → u.srs_client ≡ some srs
      → srs.active_stream_keys s.sys.world ≡ ok active
      → u.repo.get_by_id v.id s.sys.world ≡ ok v
      → (active v.stream_key || is_some (lookup v.stream_key s.pending)) ≡ true
      → u.repo.get_by_id v.id (reconcile_live_streams u now s).1.sys.world ≡ ok v
  unfolding reconcile_live_streams reconcile_with reconcile_listed
  reconcile_spares srs active v on known row spared =
      let Row = λ (t : Live W). u.repo.get_by_id v.id t.sys.world ≡ ok v in
      rw (on, reconcile_live_streams, reconcile_with)
        (bind-asked Row s "LivestreamUseCase - ReconcileLiveStreams - ActiveStreamKeys"
          srs.active_stream_keys (λ active. reconcile_listed u active now) active known
          (bind-asking Row s "LivestreamUseCase - ReconcileLiveStreams - ListActive"
            (u.repo.list_active "" reconcile_scan_limit (pos 0))
            (λ found. reconcile_rows u active now found.0) row
            (λ found e.
              let kept =
                reconcile_rows-IsSpared u laws now active v s spared found.0 s
                  (All-imp _ _
                    (λ ls here same. cc (here, row, ap (λ i. u.repo.get_by_id i s.sys.world) same))
                    found.0 (laws.listed _ _ _ s.sys.world found e))
                  (refl, row) in
              kept.1)))
