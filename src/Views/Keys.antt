-- ===== src/Views/Keys.antt =====
-- No key of the deduplication or of the tallies is the key of a counter.
use Prim.Native.String.{◌∷◌}
use text.Mathlib.TextLemmas.{cons-append}
use pine_vid_backend.Prelude.{String, Char, code, ℕ, ◌<>◌, ◌≡◌, ◌≢◌, ap, ◌∙◌, arith}
use pine_vid_backend.Entity.Video.{Time}
use pine_vid_backend.Views.{Repo, view_key, dedup_key, trending_key}

-- The fourth character.
fourth : String → ℕ
fourth (a ∷ (b ∷ (c ∷ (d ∷ s)))) = code d
fourth s = 0

fourth-append : (a b c d : Char) (s t : String) → fourth ((a ∷ (b ∷ (c ∷ (d ∷ s)))) <> t) ≡ code d
unfolding fourth
fourth-append a b c d s t = ap fourth (
    cons-append a (b ∷ (c ∷ (d ∷ s))) t
    ∙ ap (λ x. a ∷ x)
        (cons-append b (c ∷ (d ∷ s)) t
          ∙ ap (λ x. b ∷ x) (cons-append c (d ∷ s) t ∙ ap (λ x. c ∷ x) (cons-append d s t))))

view_key-fourth : (u : String) → fourth (view_key u) ≡ b'e'
unfolding view_key
view_key-fourth u = fourth-append "v" "i" "d" "e" "o_views:" u

pub dedup_key-ne :
    {W : Type 0} (r : Repo W) (video ip device u : String)
    → dedup_key r video ip device ≢ view_key u
unfolding dedup_key
dedup_key-ne r video ip device u same =
    let rest = video <> (":" <> r.fingerprint (ip <> (":" <> device))) in
    absurd (
      ground
        (arith, view_key-fourth u, ap fourth same, fourth-append "v" "i" "e" "w" "_dedup:" rest))

pub trending_key-ne :
    {W : Type 0} (r : Repo W) (now : Time) (i : ℕ) (u : String) → trending_key r now i ≢ view_key u
unfolding trending_key
trending_key-ne r now i u same = absurd (
    ground (
      arith,
      view_key-fourth u,
      ap fourth same,
      fourth-append "t" "r" "e" "n" "ding:views:" (r.day now i),
    ))
