-- ===== src/Video/Upload/Extension.antt =====
-- `filepath.Ext` and the case of the extension.
use Prim.Native.String.{[], ◌∷◌}
use text.Mathlib.TextLemmas.{nil-append, cons-append}
use pine_vid_backend.Prelude.{
  String, Char, code, ap, ◌∙◌, ◌==◌, ◌<>◌, ◌≡◌, refl, false, ◌||◌, arith,
}
use pine_vid_backend.Video.Upload.{ext_from, ext}

-- No dot and no slash.
abbrev pub IsPlain : String → Type 0
IsPlain [] = Unit
IsPlain (c ∷ s) = ((code c == b'/' || code c == b'.') ≡ false) × IsPlain s

ext_from-IsPlain : (found s : String) → IsPlain s → ext_from found s ≡ found
unfolding ext_from
ext_from-IsPlain found [] h = refl
ext_from-IsPlain found (c ∷ s) h = ground (arith, ext_from-IsPlain found s h.1)

abbrev dot : Char
dot = "."

dot-append : (e : String) → "." <> e ≡ dot ∷ e
dot-append e = cons-append dot [] e ∙ ap (◌∷◌ dot) (nil-append e)

ext_from-append : (stem e found : String) → IsPlain e → ext_from found (stem <> (dot ∷ e)) ≡ dot ∷ e
unfolding ext_from
ext_from-append [] e found h = rw nil-append (ext_from-IsPlain (dot ∷ e) e h)
ext_from-append (c ∷ stem) e found h = rw cons-append (ext_from-append stem e _ h)

-- The extension of `stem.e` is `.e`, whatever the stem (it may hold dots and slashes), if `e` has
-- neither a dot nor a slash.
pub ext-append : (stem e : String) → IsPlain e → ext (stem <> ("." <> e)) ≡ "." <> e
unfolding ext
ext-append stem e h = rw dot-append (ext_from-append stem e "" h)
