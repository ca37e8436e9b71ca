-- ===== src/Web/Auth.antt =====
-- `httpAuth` and `isAuthorized` of cfsb/api.go and of admin/api.go, which are the same, and
-- `SetBasicAuth`, by which the daemon calls the administration API of another node.
use rdpg_boshrelease.Base.{
  ℕ, Bool, true, false, ◌&&◌, Option, none, some, [], ◌∷◌, ◌++◌, eqb, if◌then◌else◌,
}
use rdpg_boshrelease.World.{Exec, pure}
use rdpg_boshrelease.Web.Base64.{Bytes, encode, decode}
use rdpg_boshrelease.Web.Answers.{Response, answered}

-- Go's `==` on strings
abbrev pub same_bytes : Bytes → Bytes → Bool
same_bytes [] [] = true
same_bytes [] (d ∷ t) = false
same_bytes (c ∷ s) [] = false
same_bytes (c ∷ s) (d ∷ t) = eqb c d && same_bytes s t

-- `strings.SplitN` with n = 2: the two parts, or `none` where the separator does not occur
abbrev pub extended : ℕ → Option (Bytes × Bytes) → Option (Bytes × Bytes)
extended c none = none
extended c (some (front, back)) = some (c ∷ front, back)

unfoldable pub split_bytes : ℕ → Bytes → Option (Bytes × Bytes)
split_bytes sep [] = none
split_bytes sep (c ∷ s) =
    let rest = split_bytes sep s in if eqb c sep then some ([], s) else extended c rest

abbrev pub basic : Bytes
basic = b'B' ∷ b'a' ∷ b's' ∷ b'i' ∷ b'c' ∷ []

-- `isAuthorized(username, password)`, with `sbUser` and `sbPass`, or `rdpgUser` and `rdpgPass`
unfoldable pub is_authorized : Bytes × Bytes → Bytes → Bytes → Bool
is_authorized (user, pass) username password = same_bytes username user && same_bytes password pass

module _ {A : Type 0} where
  abbrev pub authorization_failed : Exec (Response A)
  authorization_failed = pure (answered 401 "Authorization Failed")

  abbrev pub after_payload :
      Bytes × Bytes → Exec (Response A) → Option (Bytes × Bytes) → Exec (Response A)
  after_payload owner h none = authorization_failed
  after_payload owner h (some (username, password)) =
      if is_authorized owner username password then h else authorization_failed

  abbrev pub after_decode : Bytes × Bytes → Exec (Response A) → Option Bytes → Exec (Response A)
  after_decode owner h none = authorization_failed
  after_decode owner h (some payload) = after_payload owner h (split_bytes b':' payload)

  abbrev pub wrong_type : Exec (Response A)
  wrong_type = pure (answered 400 "Unhandled Authroization Type, Expected Basic")

  abbrev pub after_split :
      Bytes × Bytes → Exec (Response A) → Option (Bytes × Bytes) → Exec (Response A)
  after_split owner h none = wrong_type
  after_split owner h (some (kind, credentials)) =
      if same_bytes kind basic then after_decode owner h (decode credentials) else wrong_type

  -- `httpAuth(h)`, on the first header of the name Authorization
  unfoldable pub http_auth : Bytes × Bytes → Exec (Response A) → Option Bytes → Exec (Response A)
  http_auth owner h none = pure (answered 401 "Authorization Required")
  http_auth owner h (some header) = after_split owner h (split_bytes b' ' header)

-- `request.SetBasicAuth(username, password)`: the header
unfoldable pub set_basic_auth : Bytes → Bytes → Bytes
set_basic_auth username password = basic ++ (b' ' ∷ encode (username ++ (b':' ∷ password)))
