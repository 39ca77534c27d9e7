-- ===== src/Proxy/Headers.antt =====
-- The headers that pass the gate, in both directions.
use Prim.Native.String
use openclaw_manager.Common.{
  String, Bool, true, false, ◌||◌, [], ◌∷◌, ◌==◌, nat_eq, string_eq, if◌then◌else◌, any, All,
  All-snoc, update_where, ◌≡◌, refl, sym, subst, inl, inr, Bool-cases, eq_of_==,
}
use openclaw_manager.Proxy.{
  HeaderDict, set_item, is_named, hop_by_hop_headers, regenerated_response_headers,
}

abbrev pub is_kept_back : String → Bool
is_kept_back key =
    is_named hop_by_hop_headers key
    || is_named ("host" ∷ []) key
    || is_named ("authorization" ∷ []) key

-- The headers of the request that are passed on.
abbrev pub passed_on : HeaderDict → HeaderDict → HeaderDict
passed_on [] headers = headers
passed_on (item ∷ items) headers =
    passed_on items (if is_kept_back item.0 then headers else set_item item.0 item.1 headers)

abbrev pub authorization : String → String
authorization api_key = String.◌++◌ "Bearer " api_key

unfoldable pub upstream_headers : String → String → HeaderDict → HeaderDict
upstream_headers api_key user_id items =
    set_item "X-OpenClaw-Model-Proxy-User" user_id
      (set_item "Authorization" (authorization api_key) (passed_on items []))

unfoldable pub response_headers : HeaderDict → HeaderDict
response_headers [] = []
response_headers (item ∷ items) =
    let rest = response_headers items in
    if is_named hop_by_hop_headers item.0 || is_named regenerated_response_headers item.0
    then rest
    else item ∷ rest

-- No header of the connection, and no credential but the one of the proxy.
abbrev pub IsClean : String → String × String → Type 0
IsClean api_key (key, value) =
    (is_named hop_by_hop_headers key ≡ false)
    × (is_named ("host" ∷ []) key ≡ false)
    × (is_named ("authorization" ∷ []) key ≡ true → value ≡ authorization api_key)

module _ (P : String × String → Type 0) (key value : String) (p : P (key, value)) where
  overwritten-All :
      (items : HeaderDict)
      → All P items
      → All P
          (update_where (λ (item : String × String). item.0 == key) (λ item. (item.0, value)) items)
  overwritten-All [] h = tt
  overwritten-All (item ∷ items) (first, h) = elim (Bool-cases (item.0 == key)) [
    | inl e ↦ rw e (
      subst (λ (name : String). P (name, value)) (sym (eq_of_== item.0 key e)) p,
      overwritten-All items h,
    )
    | inr e ↦ rw e (first, overwritten-All items h)
  ]

  pub set_item-All : (items : HeaderDict) → All P items → All P (set_item key value items)
  set_item-All items h = elim (Bool-cases (any (λ (item : String × String). item.0 == key) items)) [
    | inl e ↦ rw e (overwritten-All items h)
    | inr e ↦ rw e (All-snoc P items (key, value) h p)
  ]

none_true : (a b c : Bool) → (a || b || c) ≡ false → (a ≡ false) × (b ≡ false) × (c ≡ false)
none_true false false false h = (refl, refl, refl)
none_true false false true h = absurd (cc h)
none_true false true c h = absurd (cc h)
none_true true b c h = absurd (cc h)

module _ (api_key : String) where
  passed_on-All :
      (items headers : HeaderDict)
      → All (IsClean api_key) headers
      → All (IsClean api_key) (passed_on items headers)
  passed_on-All [] headers h = h
  passed_on-All ((key, value) ∷ items) headers h = elim (Bool-cases (is_kept_back key)) [
    | inl e ↦ rw e (passed_on-All items headers h)
    | inr e ↦
        let (hop, host, credential) =
          none_true (is_named hop_by_hop_headers key) (is_named ("host" ∷ []) key)
            (is_named ("authorization" ∷ []) key) e in
        let clean : IsClean api_key (key, value) =
          (hop, host, λ named. absurd (cc (credential, named))) in
        rw e (
          passed_on-All items (set_item key value headers)
            (set_item-All (IsClean api_key) key value clean headers h))
  ]

  pub upstream_headers-All :
      (user_id : String) (items : HeaderDict)
      → All (IsClean api_key) (upstream_headers api_key user_id items)
  unfolding upstream_headers
  upstream_headers-All user_id items =
      let bearer : IsClean api_key ("Authorization", authorization api_key) =
        (refl, refl, λ _. refl) in
      let user : IsClean api_key ("X-OpenClaw-Model-Proxy-User", user_id) =
        (refl, refl, λ named. absurd (cc named)) in
      set_item-All (IsClean api_key) "X-OpenClaw-Model-Proxy-User" user_id user _ (
        set_item-All (IsClean api_key) "Authorization" (authorization api_key) bearer _
          (passed_on-All items [] tt))
