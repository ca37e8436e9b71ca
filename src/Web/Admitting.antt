-- ===== src/Web/Admitting.antt =====
-- Whom `httpAuth` lets through.
use rdpg_boshrelease.Base.{
  ℕ, ◌≡◌, refl, true, false, Option, none, some, [], ◌∷◌, ◌++◌, ◌⊎◌, inl, inr, eqb, ap, ◌&&◌,
  String, All, if◌then◌else◌, Bool-cases, arith,
}
use rdpg_boshrelease.World.{Exec, pure}
use rdpg_boshrelease.Web.Base64.{Bytes, IsByte, encode, decode}
use rdpg_boshrelease.Web.Answers.{Response, answered}
use rdpg_boshrelease.Web.Auth.{
  same_bytes, extended, split_bytes, basic, is_authorized, authorization_failed, after_payload,
  after_decode, after_split, http_auth, set_basic_auth,
}
use rdpg_boshrelease.Web.Decoding.{decode-encode}

-- the separator does not occur
abbrev pub Lacks : ℕ → Bytes → Type 0
Lacks sep = All (λ c. eqb c sep ≡ false)

split_bytes-append :
    (sep : ℕ) (front back : Bytes)
    → Lacks sep front
    → split_bytes sep (front ++ (sep ∷ back)) ≡ some (front, back)
unfolding split_bytes
split_bytes-append sep [] back h = ground arith
split_bytes-append sep (c ∷ front) back (hc, h) = rw (hc, split_bytes-append sep front back h)

IsByte-append : (s t : Bytes) → All IsByte s → All IsByte t → All IsByte (s ++ t)
IsByte-append [] t hs ht = ht
IsByte-append (c ∷ s) t (hc, hs) ht = (hc, IsByte-append s t hs ht)

same_bytes_sound : (s t : Bytes) → same_bytes s t ≡ true → s ≡ t
same_bytes_sound [] [] e = refl
same_bytes_sound (c ∷ s) (d ∷ t) e = ground (arith, same_bytes_sound s t)
same_bytes_sound [] (d ∷ t) e = cc
same_bytes_sound (c ∷ s) [] e = cc

extended_sound :
    (c : ℕ) (o : Option (Bytes × Bytes)) (front back : Bytes)
    → extended c o ≡ some (front, back)
    → (rest : Bytes) × (o ≡ some (rest, back)) × (front ≡ c ∷ rest)
extended_sound c none front back e = cc
extended_sound c (some (rest, after)) front back e = (rest, cc, cc)

-- The two parts, joined again by the separator, are the text.
split_bytes_sound :
    (sep : ℕ) (s front back : Bytes)
    → split_bytes sep s ≡ some (front, back)
    → s ≡ front ++ (sep ∷ back)
unfolding split_bytes
split_bytes_sound sep [] front back e = cc
split_bytes_sound sep (c ∷ s) front back e = elim (Bool-cases (eqb c sep)) [
  | inl same ↦ ground arith
  | inr other ↦
      let (rest, found, joined) = extended_sound c (split_bytes sep s) front back (rw other at e) in
      rw (joined, split_bytes_sound sep s rest back found)
]

Option-cases {ℓ} : {A : Type ℓ} (o : Option A) → (o ≡ none) ⊎ ((a : A) × (o ≡ some a))
Option-cases none = inl refl
Option-cases (some a) = inr (a, refl)

module _ {A : Type 0} (owner : Bytes × Bytes) (h : Exec (Response A)) where
  -- A request with the header that `SetBasicAuth` makes reaches the handler if its credentials are
  -- those of the server, and is answered with 401 otherwise. The user name has no colon; both are
  -- bytes.
  pub http_auth-set_basic_auth :
      (username password : Bytes)
      → Lacks b':' username
      → All IsByte username
      → All IsByte password
      → http_auth owner h (some (set_basic_auth username password))
        ≡ (if is_authorized owner username password then h else authorization_failed)
  unfolding http_auth set_basic_auth
  http_auth-set_basic_auth username password lacks hu hp =
      rw
        (split_bytes-append b' ' basic (encode (username ++ (b':' ∷ password)))
          (refl, (refl, (refl, (refl, (refl, tt))))))
        (rw
          (decode-encode (username ++ (b':' ∷ password))
            (IsByte-append username (b':' ∷ password) hu (omega arith, hp)))
          (rw (split_bytes-append b':' username password lacks) refl))

  -- The header, if it has one, is that of the server's own credentials.
  abbrev pub IsOwners : Option Bytes → Type 0
  IsOwners header =
      (x : Bytes) × ((header ≡ some (basic ++ (b' ' ∷ x)))
        × (decode x ≡ some (owner.0 ++ (b':' ∷ owner.1))))

  abbrev pub IsDenied : Exec (Response A) → Type 0
  IsDenied m =
      (code : ℕ) × ((text : String) × ((m ≡ pure (answered code text))
          × ((code ≡ 400) ⊎ (code ≡ 401))))

  after_payload-Admits :
      (o : Option (Bytes × Bytes))
      → (o ≡ some owner × (after_payload owner h o ≡ h)) ⊎ IsDenied (after_payload owner h o)
  unfolding is_authorized
  after_payload-Admits none = inr (401, (_, (refl, inr refl)))
  after_payload-Admits (some (user, pass)) =
      elim (Bool-cases (same_bytes user owner.0 && same_bytes pass owner.1)) [
        | inl same ↦
            inl (
              ground (arith, same_bytes_sound user owner.0, same_bytes_sound pass owner.1),
              rw same,
            )
        | inr other ↦ inr (401, ("Authorization Failed", (rw other, inr refl)))
      ]

  after_decode-Admits :
      (x : Option Bytes)
      → ((x ≡ some (owner.0 ++ (b':' ∷ owner.1))) × (after_decode owner h x ≡ h))
        ⊎ IsDenied (after_decode owner h x)
  after_decode-Admits none = inr (401, (_, (refl, inr refl)))
  after_decode-Admits (some payload) = elim (after_payload-Admits (split_bytes b':' payload)) [
    | inl (found, runs) ↦ inl (ap some (split_bytes_sound b':' payload owner.0 owner.1 found), runs)
    | inr denied ↦ inr denied
  ]

  after_split-Admits :
      (o : Option (Bytes × Bytes))
      → ((x : Bytes) × ((o ≡ some (basic, x))
            × ((decode x ≡ some (owner.0 ++ (b':' ∷ owner.1))) × (after_split owner h o ≡ h))))
        ⊎ IsDenied (after_split owner h o)
  after_split-Admits none = inr (400, (_, (refl, inl refl)))
  after_split-Admits (some (kind, x)) = elim (Bool-cases (same_bytes kind basic)) [
    | inl same ↦ elim (after_decode-Admits (decode x)) [
      | inl (found, runs) ↦ inl (
        x,
        (ap (λ (k : Bytes). some (k, x)) (same_bytes_sound kind basic same), (found, rw same runs)),
      )
      | inr denied ↦ inr (rw same denied)
    ]
    | inr other ↦ inr (400, ("Unhandled Authroization Type, Expected Basic", (rw other, inl refl)))
  ]

  -- `httpAuth` runs the handler for no other header than "Basic " and a text that decodes to the
  -- server's user name, a colon and its password. To any other request it answers 400 or 401, with
  -- the world as it was.
  pub http_auth-Admits :
      (header : Option Bytes)
      → (IsOwners header × (http_auth owner h header ≡ h)) ⊎ IsDenied (http_auth owner h header)
  unfolding http_auth
  http_auth-Admits none = inr (401, (_, (refl, inr refl)))
  http_auth-Admits (some header) = elim (after_split-Admits (split_bytes b' ' header)) [
    | inl (x, (split, (found, runs))) ↦
        inl ((x, (ap some (split_bytes_sound b' ' header basic x split), found)), runs)
    | inr denied ↦ inr denied
  ]
