-- ===== src/Bridge/Keys.antt =====
-- `SigningKeys`: the loaded keys by their kid, and the one that signs. What a key is does not matter.
use openclaw_manager.Common.{
  String, Bool, true, false, not, Option, none, some, List, [], ◌∷◌, ◌==◌, string_eq, if◌then◌else◌,
  any, find, delete_where, Bool-cases, ◌≡◌, sym, subst, ◌⊎◌, inl, inr, arith, eq_of_==, any-find,
}

pub data KeyError : Type 0 where
  no_key active_not_loaded not_loaded retires_active unknown_key : KeyError

pub record SigningKeys {ℓ} (Key : Type ℓ) : Type ℓ where
  pub keys : List (String × Key)
  pub active_kid : String

pub data Use : Type 0 where
  activates retires : String → Use

module _ {ℓ} {Key : Type ℓ} where
  abbrev pub is_kid : String → String × Key → Bool
  is_kid kid (name, key) = name == kid

  abbrev pub is_loaded : String → List (String × Key) → Bool
  is_loaded kid keys = any (is_kid kid) keys

  -- `__init__`
  unfoldable pub load_keys : List (String × Key) → String → SigningKeys Key ⊎ KeyError
  load_keys [] active_kid = inr no_key
  load_keys (key ∷ keys) active_kid =
      if is_loaded active_kid (key ∷ keys)
      then inl (record { keys = key ∷ keys; active_kid = active_kid })
      else inr active_not_loaded

  -- the error that is raised, if any, and the object afterwards
  unfoldable pub activate : String → SigningKeys Key → Option KeyError × SigningKeys Key
  activate kid s =
      if not (is_loaded kid s.keys)
      then (some not_loaded, s)
      else (none, record s { active_kid = kid })

  unfoldable pub retire : String → SigningKeys Key → Option KeyError × SigningKeys Key
  retire kid s =
      if kid == s.active_kid
      then (some retires_active, s)
      else if is_loaded kid s.keys
      then (none, record s { keys = delete_where (is_kid kid) s.keys })
      else (some unknown_key, s)

  -- `self.keys[self.active_kid]` in `sign`, with none for a KeyError
  abbrev pub signing_key : SigningKeys Key → Option (String × Key)
  signing_key s = find (is_kid s.active_kid) s.keys

  abbrev pub use_keys : List Use → SigningKeys Key → SigningKeys Key
  use_keys [] s = s
  use_keys (activates kid ∷ uses) s = use_keys uses (activate kid s).1
  use_keys (retires kid ∷ uses) s = use_keys uses (retire kid s).1

  abbrev IsReady : SigningKeys Key → Type 0
  IsReady s = is_loaded s.active_kid s.keys ≡ true

  activate-IsReady : (kid : String) (s : SigningKeys Key) → IsReady s → IsReady (activate kid s).1
  unfolding activate
  activate-IsReady kid s h = elim (Bool-cases (is_loaded kid s.keys)) [
    | inl e ↦ rw (e, activate) e
    | inr e ↦ rw (e, activate) h
  ]

  retire-keeps :
      (kid active : String) (keys : List (String × Key))
      → (kid == active) ≡ false
      → is_loaded active keys ≡ true
      → is_loaded active (delete_where (is_kid kid) keys) ≡ true
  retire-keeps kid active [] other h = h
  retire-keeps kid active (x ∷ keys) other h = elim (Bool-cases (x.0 == kid)) [
    | inl e ↦
        let apart : (x.0 == active) ≡ false =
          subst (λ (t : String). (t == active) ≡ false) (sym (eq_of_== x.0 kid e)) other in
        rw e (retire-keeps kid active keys other (rw apart at h))
    | inr e ↦ rw e (ground (arith, h, retire-keeps kid active keys other))
  ]

  retire-IsReady : (kid : String) (s : SigningKeys Key) → IsReady s → IsReady (retire kid s).1
  unfolding retire
  retire-IsReady kid s h = elim (Bool-cases (kid == s.active_kid)) [
    | inl e ↦ rw (e, retire) h
    | inr e ↦ elim (Bool-cases (is_loaded kid s.keys)) [
      | inl l ↦ rw (e, retire) (rw l (retire-keeps kid s.active_kid s.keys e h))
      | inr l ↦ rw (e, retire) (rw l h)
    ]
  ]

  use_keys-IsReady : (uses : List Use) (s : SigningKeys Key) → IsReady s → IsReady (use_keys uses s)
  use_keys-IsReady [] s h = h
  use_keys-IsReady (activates kid ∷ uses) s h =
      use_keys-IsReady uses (activate kid s).1 (activate-IsReady kid s h)
  use_keys-IsReady (retires kid ∷ uses) s h =
      use_keys-IsReady uses (retire kid s).1 (retire-IsReady kid s h)

  -- Once the keys are loaded, every sequence of activations and retirements, failed ones included,
  -- leaves a key for signing: the active kid is always among the loaded keys.
  pub use_keys-signing_key :
      (loaded : List (String × Key)) (active_kid : String) (s : SigningKeys Key) (uses : List Use)
      → load_keys loaded active_kid ≡ inl s
      → (key : String × Key) × (signing_key (use_keys uses s) ≡ some key)
  unfolding load_keys
  use_keys-signing_key [] active_kid s uses h = absurd (cc h)
  use_keys-signing_key (x ∷ loaded) active_kid s uses h =
      elim (Bool-cases (is_loaded active_kid (x ∷ loaded))) [
        | inr e ↦ absurd (cc (rw (e, load_keys) at h))
        | inl e ↦
            let same = rw (e, load_keys) at h in
            let first : SigningKeys Key = record { keys = x ∷ loaded; active_kid = active_kid } in
            let made : first ≡ s = cc same in
            let ready : IsReady s = subst IsReady made e in
            let final = use_keys uses s in
            any-find (is_kid final.active_kid) final.keys (use_keys-IsReady uses s ready)
      ]
