-- ===== src/Proxy/Target.antt =====
-- The URL that `upstream_url_for` of the model proxy makes of a path.
use Prim.Native.String
use openclaw_manager.Common.{
  ℕ, String, Bool, true, false, ◌||◌, some, List, [], ◌∷◌, ◌==◌, nat_eq, any, codes, All, All-imp,
  ◌≡◌, ◌≢◌, refl, sym, subst, inl, inr, arith, Bool-cases,
}
use openclaw_manager.Proxy.{UrlTools, is_same}
use openclaw_manager.Proxy.Gate.{is_under, upstream_url_for, is_dotted, segments}

any-All {ℓ} :
    {A : Type ℓ} (q : A → Bool) (xs : List A) → any q xs ≡ false → All (λ x. q x ≡ false) xs
any-All q [] h = tt
any-All q (x ∷ xs) h = elim (Bool-cases (q x)) [
  | inl e ↦ absurd (cc (rw e at h))
  | inr e ↦ (e, any-All q xs (rw e at h))
]

is_same_refl : (xs : List ℕ) → is_same xs xs ≡ true
is_same_refl [] = refl
is_same_refl (x ∷ xs) = ground (arith, is_same_refl xs)

is_same-false : (xs ys : List ℕ) → is_same xs ys ≡ false → xs ≢ ys
is_same-false xs ys h e = absurd (cc (is_same_refl ys, subst (λ zs. is_same zs ys ≡ false) e h))

-- A text without a backslash.
abbrev pub IsPlain : String → Type 0
IsPlain text = All (λ c. c ≢ 92) (codes text)

-- A part of a path that is neither `.` nor `..`.
abbrev pub IsStep : List ℕ → Type 0
IsStep part = (part ≢ codes ".") × (part ≢ codes "..")

-- A URL that may be asked of the provider for a path: the join of the base URL and the path, where
-- neither the path nor what it decodes to holds a backslash, no part of the decoded path is `.` or
-- `..`, and the URL has the scheme and the host of the base and lies under its path.
abbrev pub IsTarget : UrlTools → String → String → String → Type 0
IsTarget tools base_url path url =
    (url ≡ tools.urljoin (String.◌++◌ base_url "/") path)
    × IsPlain path
    × IsPlain (tools.unquote path)
    × All IsStep (segments (codes (tools.unquote path)))
    × (is_under (tools.urlsplit base_url) (tools.urlsplit url) ≡ true)

any-IsPlain : (text : String) → any (λ c. c == 92) (codes text) ≡ false → IsPlain text
any-IsPlain text h =
    All-imp _ (λ c. c ≢ 92) (λ c k e. absurd (ground (arith, k, e))) (codes text)
      (any-All (λ c. c == 92) (codes text) h)

any-IsStep : (parts : List (List ℕ)) → any is_dotted parts ≡ false → All IsStep parts
any-IsStep parts h =
    All-imp _ IsStep
      (λ part k. (
        is_same-false part (codes ".") (ground (arith, k)),
        is_same-false part (codes "..") (ground (arith, k)),
      ))
      parts (any-All is_dotted parts h)

pub upstream_url_for-IsTarget :
    (tools : UrlTools) (base_url path url : String)
    → upstream_url_for tools base_url path ≡ some url
    → IsTarget tools base_url path url
unfolding upstream_url_for
upstream_url_for-IsTarget tools base_url path url h =
    let decoded = tools.unquote path in
    let candidate = tools.urljoin (String.◌++◌ base_url "/") path in
    elim (Bool-cases (any (λ c. c == 92) (codes path) || any (λ c. c == 92) (codes decoded))) [
      | inl e ↦ absurd (cc (rw (e, upstream_url_for) at h))
      | inr e ↦ elim (Bool-cases (any is_dotted (segments (codes decoded)))) [
        | inl d ↦ absurd (cc (rw d at (rw (e, upstream_url_for) at h)))
        | inr d ↦
            elim (Bool-cases (is_under (tools.urlsplit base_url) (tools.urlsplit candidate))) [
              | inr u ↦ absurd (cc (rw u at (rw d at (rw (e, upstream_url_for) at h))))
              | inl u ↦
                  let same : candidate ≡ url =
                    cc (rw u at (rw d at (rw (e, upstream_url_for) at h))) in
                  (
                    sym same,
                    any-IsPlain path (ground (arith, e)),
                    any-IsPlain decoded (ground (arith, e)),
                    any-IsStep (segments (codes decoded)) d,
                    subst
                        (λ (t : String).
                          is_under (tools.urlsplit base_url) (tools.urlsplit t) ≡ true)
                        same u,
                  )
            ]
      ]
    ]
