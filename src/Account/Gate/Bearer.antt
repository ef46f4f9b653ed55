-- ===== src/Account/Gate/Bearer.antt =====
-- Who passes the middleware.
use Prim.Native.String.{[], ◌∷◌}
use text.Mathlib.TextLemmas.{nil-append, cons-append, cons-ne-nil, append-ne-nil_of_right_ne-nil}
use text.Mathlib.TextEquality.{Char-path}
use pine_vid_backend.Prelude.{
  String, Char, code, false, ◌<>◌, ◌==◌, ==_iff, ◌≡◌, ◌≢◌, ◌↔◌, refl, sym, ap, ◌∙◌, arith, eq_iff,
  Option, none, some, str_eq, Bool-cases, Option-cases, inl, inr,
}
use pine_vid_backend.Effects.{ok, Result-cases}
use pine_vid_backend.Entity.Video.{Time}
use pine_vid_backend.Entity.User.{User, role_admin}
use pine_vid_backend.Account.{Manager, UseCase, get_user}
use pine_vid_backend.Account.Gate.{
  Verdict, passes, refused, crashed, split_space, token_of, auth, optional_auth, require_admin,
  admin_gate,
}

abbrev space : Char
space = " "

-- No space.
abbrev IsWord : String → Type 0
IsWord [] = Unit {0}
IsWord (c ∷ s) = ((code c == b' ') ≡ false) × IsWord s

split_space-append :
    (word rest : String) → IsWord word → split_space (word <> (space ∷ rest)) ≡ some (word, rest)
unfolding split_space
split_space-append [] rest h = rw nil-append refl
split_space-append (c ∷ word) rest h =
    rw cons-append (ground (arith, split_space-append word rest h.1, h.0))

-- The parts of a split, with something for no split.
first : Option (String × String) → String
first none = ""
first (some (a, b)) = a

second : Option (String × String) → String
second none = ""
second (some (a, b)) = b

split_space_joins :
    (s word rest : String) → split_space s ≡ some (word, rest) → s ≡ word <> (space ∷ rest)
unfolding split_space first second
split_space_joins [] word rest h = absurd (ground (arith, h))
split_space_joins (c ∷ s) word rest h = elim (Bool-cases (code c == b' ')) [
  | inl here ↦
      let c_space : c ≡ space = Char-path c space (omega (arith, (==_iff (code c) b' ').0 here)) in
      let parts : some ("", s) ≡ some (word, rest) = ground (arith, h, here) in
      ap (λ d. d ∷ s) c_space
      ∙ (ap (λ xs. space ∷ xs) (ap second parts)
          ∙ (sym (nil-append (space ∷ rest)) ∙ ap (λ x. x <> (space ∷ rest)) (ap first parts)))
  | inr later ↦ elim (Option-cases (split_space s)) [
    | inl nothing ↦ absurd (ground (arith, h, nothing, later))
    | inr ((a, b), found) ↦
        let parts : some (c ∷ a, b) ≡ some (word, rest) = ground (arith, h, later, found) in
        ap (λ xs. c ∷ xs) (split_space_joins s a b found)
        ∙ (sym (cons-append c a (space ∷ b))
            ∙ (ap (λ x. x <> (space ∷ b)) (ap first parts)
                ∙ ap (λ y. word <> (space ∷ y)) (ap second parts)))
  ]
]

-- The header of a token.
abbrev pub bearer : String → String
bearer token = "Bearer" <> (space ∷ token)

token_of-bearer : (token : String) → token_of (split_space (bearer token)) ≡ some token
token_of-bearer token =
    rw (split_space-append "Bearer" token (refl, (refl, (refl, (refl, (refl, (refl, tt)))))))
      (ground (arith, eq_iff "Bearer" "Bearer"))

token_of_eq :
    (header token : String) → token_of (split_space header) ≡ some token → header ≡ bearer token
token_of_eq header token h = elim (Option-cases (split_space header)) [
  | inl nothing ↦ absurd (ground (arith, nothing, h))
  | inr ((scheme, rest), found) ↦ elim (Bool-cases (str_eq scheme "Bearer")) [
    | inl named ↦
        let k : scheme ≡ "Bearer" = (eq_iff scheme "Bearer").0 named in
        let r : some rest ≡ some token = ground (arith, found, named, h) in
        split_space_joins header scheme rest found
        ∙ (ap (λ x. x <> (space ∷ rest)) k ∙ ap (λ x. "Bearer" <> (space ∷ x)) (ground (arith, r)))
    | inr other ↦ absurd (ground (arith, found, other, h))
  ]
]

not_empty : (header token : String) → header ≡ bearer token → str_eq header "" ≡ false
not_empty header token same = elim (Bool-cases (str_eq header "")) [
  | inl empty ↦ absurd (
      append-ne-nil_of_right_ne-nil "Bearer" (cons-ne-nil space token)
        (sym same ∙ (eq_iff header "").0 empty))
  | inr full ↦ full
]

-- `Auth` lets exactly the requests pass whose header is "Bearer", a space, and a token that the token
-- manager accepts, and the user is the token's.
pub auth_passes :
    (jwt : Manager) (now : Time) (header user : String)
    → (auth jwt now header ≡ passes (some user))
      ↔ ((token : String) × (header ≡ bearer token) × (jwt.parse_token token now ≡ ok user))
unfolding auth
auth_passes jwt now header user = (
  (λ passed. elim (Option-cases (token_of (split_space header))) [
    | inl nothing ↦ absurd (ground (arith, passed, nothing))
    | inr (token, found) ↦ elim (Result-cases (jwt.parse_token token now)) [
      | inl (id, accepted) ↦
          (token, token_of_eq header token found, ground (arith, passed, found, accepted))
      | inr (inl (e, failed)) ↦ absurd (ground (arith, passed, found, failed))
      | inr (inr failed) ↦ absurd (ground (arith, passed, found, failed))
    ]
  ]),
  λ (token, same, accepted).
      let here = ap (λ h. token_of (split_space h)) same ∙ token_of-bearer token in
      ground (arith, here, accepted, not_empty header token same),
)

-- A refusal of `Auth` is an anonymous caller for `OptionalAuth`.
abbrev pub relaxed : Verdict → Verdict
relaxed (passes local) = passes local
relaxed (refused status text) = passes none
relaxed crashed = crashed

-- `OptionalAuth` refuses nobody, and knows the user exactly when `Auth` does.
pub optional_auth_relaxes :
    (jwt : Manager) (now : Time) (header : String)
    → optional_auth jwt now header ≡ relaxed (auth jwt now header)
unfolding auth optional_auth
optional_auth_relaxes jwt now header = ground arith

-- `Auth` and `RequireAdmin` let exactly the requests pass that carry a token, as "Bearer" and a space
-- and the token, which the token manager accepts for an ID that is not empty, where the user of the ID
-- is found, by ID or else by name, and has the role admin: whether the user is banned is not asked.
-- The next handler then gets this ID.
pub admin_gate_passes :
    {W : Type 0} (u : UseCase W) (now : Time) (header : String) (local : Option String) (w : W)
    → (admin_gate u now header w ≡ passes local) ↔ (
        (token id : String) × (user : User) × (header ≡ bearer token)
        × (u.jwt.parse_token token now ≡ ok id)
        × (id ≢ "")
        × ((get_user u id w).0 ≡ ok user)
        × (user.role ≡ role_admin)
        × (local ≡ some id))
unfolding admin_gate auth require_admin
admin_gate_passes u now header local w = (
  (λ passed. elim (Option-cases (token_of (split_space header))) [
    | inl nothing ↦ absurd (ground (arith, passed, nothing))
    | inr (token, found) ↦ elim (Result-cases (u.jwt.parse_token token now)) [
      | inl (id, accepted) ↦ elim (Bool-cases (str_eq id "")) [
        | inl empty ↦ absurd (ground (arith, passed, found, accepted, empty))
        | inr named ↦ elim (Result-cases (get_user u id w).0) [
          | inl (user, known) ↦ (
            token,
            id,
            user,
            token_of_eq header token found,
            accepted,
            ground (arith, eq_iff id "", named),
            known,
            ground (arith, passed, found, accepted, named, known, eq_iff user.role role_admin),
            ground (arith, passed, found, accepted, named, known),
          )
          | inr (inl (e, failed)) ↦ absurd (ground (arith, passed, found, accepted, named, failed))
          | inr (inr failed) ↦ absurd (ground (arith, passed, found, accepted, named, failed))
        ]
      ]
      | inr (inl (e, failed)) ↦ absurd (ground (arith, passed, found, failed))
      | inr (inr failed) ↦ absurd (ground (arith, passed, found, failed))
    ]
  ]),
  λ (token, id, user, same, accepted, named, known, admin, here).
      let read = ap (λ h. token_of (split_space h)) same ∙ token_of-bearer token in
      ground (
        arith,
        read,
        accepted,
        not_empty header token same,
        eq_iff id "",
        named,
        known,
        eq_iff user.role role_admin,
        admin,
        here,
      ),
)
