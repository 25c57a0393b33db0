-- ===== src/Api/Auth/Admission.antt =====
-- Who passes the guard.
use message_management_api.Prelude.{
  ◌≡◌, ◌≢◌, refl, ap, ◌↔◌, ◌⊎◌, inl, inr, String, true, Option, none, some, List, [], ◌∷◌, is_empty,
  arith, Bool-cases, eq_iff, Option-cases,
}
use message_management_api.Effects.{ok, err}
use message_management_api.Runtime.{Buffer}
use message_management_api.Api.Auth.{
  ApiKeyConfig, Crypto, same_bytes, accepts, authenticate, can_activate, unauthorized,
}

same_bytes_lem : (a b : Buffer) → same_bytes a b ≡ true → a ≡ b
unfolding same_bytes
same_bytes_lem [] [] h = refl
same_bytes_lem (a ∷ as') (b ∷ bs) h = ground (arith, same_bytes_lem as' bs)
same_bytes_lem [] (b ∷ bs) h = cc
same_bytes_lem (a ∷ as') [] h = cc

same_bytes_refl : (a : Buffer) → same_bytes a a ≡ true
unfolding same_bytes
same_bytes_refl [] = refl
same_bytes_refl (a ∷ as') = ground (arith, same_bytes_refl as')

module _ (crypto : Crypto) where
  accepts_iff :
      (key : String) (k : ApiKeyConfig)
      → (accepts crypto key k ≡ true) ↔ (crypto.sha256 key ≡ crypto.from_hex k.hash)
  accepts_iff key k = (
    λ h. same_bytes_lem (crypto.sha256 key) (crypto.from_hex k.hash) (ground arith),
    λ e. rw e (ground (arith, same_bytes_refl (crypto.from_hex k.hash))),
  )

  -- The first configured key with the digest of the presented one, and none before it.
  abbrev pub IsFirst : List ApiKeyConfig → String → String → Type 0
  IsFirst [] key name = ⊥
  IsFirst (k ∷ keys) key name =
      ((crypto.sha256 key ≡ crypto.from_hex k.hash) × (k.name ≡ name))
      ⊎ ((crypto.sha256 key ≢ crypto.from_hex k.hash) × IsFirst keys key name)

  authenticate_iff :
      (keys : List ApiKeyConfig) (key name : String)
      → (authenticate crypto keys key ≡ some name) ↔ IsFirst keys key name
  unfolding authenticate
  authenticate_iff [] key name = (λ h. cc, λ h. absurd h)
  authenticate_iff (k ∷ keys) key name = elim (Bool-cases (accepts crypto key k)) [
    | inl hit ↦ rw hit (
      λ e. inl ((accepts_iff key k).0 hit, cc),
      λ h. elim h [
        | inl (same, named) ↦ ap some named
        | inr (other, later) ↦ absurd (other ((accepts_iff key k).0 hit))
      ],
    )
    | inr miss ↦ rw miss (
      λ e. inr (λ same. cc ((accepts_iff key k).1 same), (authenticate_iff keys key name).0 e),
      λ h. elim h [
        | inl (same, named) ↦ cc ((accepts_iff key k).1 same)
        | inr (other, later) ↦ (authenticate_iff keys key name).1 later
      ],
    )
  ]

  presented :
      (keys : List ApiKeyConfig) (header : Option String) (name : String)
      → can_activate crypto keys none header ≡ ok (some name)
      → (key : String) × (header ≡ some key)
        × (key ≢ "")
        × (authenticate crypto keys key ≡ some name)
  unfolding can_activate
  presented keys none name h = cc
  presented keys (some key) name h = (key, refl, ground (arith, eq_iff key ""), ground arith)

  admitted_with :
      (keys : List ApiKeyConfig) (key name : String)
      → key ≢ ""
      → authenticate crypto keys key ≡ some name
      → can_activate crypto keys none (some key) ≡ ok (some name)
  unfolding can_activate
  admitted_with keys key name h e = ground (arith, eq_iff key "")

  -- On a route that is not public the guard admits a request under a name exactly if its header
  -- holds a key that is not empty, the digest of which is the stored one of a configured key of
  -- that name, the first with that digest; every other request is refused with status 401.
  pub can_activate_iff :
      (keys : List ApiKeyConfig) (header : Option String)
      → ((name : String)
          → (can_activate crypto keys none header ≡ ok (some name))
            ↔ ((key : String) × (header ≡ some key) × (key ≢ "") × IsFirst keys key name))
        × (((name : String) × (can_activate crypto keys none header ≡ ok (some name)))
            ⊎ (can_activate crypto keys none header ≡ err (unauthorized "Invalid API key")))
  unfolding can_activate
  can_activate_iff keys header = (
    λ name. (
      λ h.
          let (key, held, full, found) = presented keys header name h in
          (key, held, full, (authenticate_iff keys key name).0 found),
      λ (key, held, full, first).
          rw held (admitted_with keys key name full ((authenticate_iff keys key name).1 first)),
    ),
    outcome header,
  )
    where
      outcome :
          (h : Option String)
          → ((name : String) × (can_activate crypto keys none h ≡ ok (some name)))
            ⊎ (can_activate crypto keys none h ≡ err (unauthorized "Invalid API key"))
      outcome none = inr refl
      outcome (some key) = elim (Bool-cases (is_empty key)) [
        | inl empty ↦ rw empty (inr refl)
        | inr full ↦ elim (Option-cases (authenticate crypto keys key)) [
          | inl missing ↦ rw (full, missing) (inr refl)
          | inr (name, found) ↦ rw (full, found) (inl (name, refl))
        ]
      ]
