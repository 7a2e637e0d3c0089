-- ===== src/Xray/Passwords.antt =====
-- common/helper.go and backend/xray/user.go: the keys of Shadowsocks 2022. base64 and SHA-256 are
-- arguments.
use text.Mathlib.Text.{find?}
use pasarguard_node.Prelude.{
  ℕ, zero, suc, ◌≡◌, refl, String, Bool, true, false, ◌&&◌, ◌||◌, Option, none, some, List, [], ◌∷◌,
  arith, nat_beq, if◌then◌else◌, is_some, length, inl, inr, Bool-cases, ◌≤◌,
}
use pasarguard_node.Xray.Accounts.{ShadowsocksAccount}

-- bs[:n] of at least n bytes
unfoldable pub first : ℕ → List ℕ → List ℕ
first zero bs = []
first (suc n) [] = []
first (suc n) (b ∷ bs) = b ∷ first n bs

-- strings.Contains
abbrev pub has_text : String → String → Bool
has_text s t = is_some (find? s t)

abbrev pub is_aes_128 : String → Bool
is_aes_128 method = has_text method "aes-128-gcm"

abbrev pub is_256 : String → Bool
is_256 method = has_text method "aes-256-gcm" || has_text method "chacha20-poly1305"

unfoldable pub fits : String → Option (List ℕ) → Bool
fits method none = false
fits method (some bytes) =
    is_aes_128 method && nat_beq (length bytes) 16 || is_256 method && nat_beq (length bytes) 32

module _ (decode : String → Option (List ℕ)) (encode : List ℕ → String)
    (sha256 : String → List ℕ) where
  unfoldable pub ensure_base64_password : String → String → String
  unfolding fits first
  ensure_base64_password password method =
      if fits method (decode password)
      then password
      else encode (first (if is_aes_128 method then 16 else 32) (sha256 password))

  unfoldable pub check_shadowsocks_2022 : String → ShadowsocksAccount → ShadowsocksAccount
  unfolding ensure_base64_password
  check_shadowsocks_2022 method account = record account {
    password = ensure_base64_password account.password method;
  }

length-first : (n : ℕ) (bs : List ℕ) → n ≤ length bs → length (first n bs) ≡ n
unfolding first
length-first zero bs h = refl
length-first (suc n) [] h = absurd (omega arith)
length-first (suc n) (b ∷ bs) h = omega (arith, length-first n bs (omega arith))

module _ (decode : String → Option (List ℕ)) (encode : List ℕ → String) (sha256 : String → List ℕ)
    (decode-encode : (bytes : List ℕ) → decode (encode bytes) ≡ some bytes)
    (length-sha256 : (s : String) → length (sha256 s) ≡ 32) where
  -- For a method with aes-128-gcm, aes-256-gcm or chacha20-poly1305 in its name, the key decodes to
  -- bytes of the length that the method asks for, whatever the password is, if base64 decodes what
  -- it encoded and SHA-256 gives 32 bytes.
  pub ensure_base64_password-fits :
      (method password : String)
      → (is_aes_128 method || is_256 method) ≡ true
      → fits method (decode (ensure_base64_password decode encode sha256 password method)) ≡ true
  unfolding ensure_base64_password fits
  ensure_base64_password-fits method password known =
      elim (Bool-cases (fits method (decode password))) [
        | inl e ↦ rw (e, e) refl
        | inr e ↦
            rw (e, decode-encode)
              (ground (
                arith,
                length-first 16 (sha256 password),
                length-first 32 (sha256 password),
                length-sha256 password,
              ))
      ]

  -- EnsureBase64Password leaves what it returned as it is, for a method with aes-128-gcm,
  -- aes-256-gcm or chacha20-poly1305 in its name.
  pub ensure_base64_password_idempotent :
      (method password : String)
      → (is_aes_128 method || is_256 method) ≡ true
      → ensure_base64_password decode encode sha256
          (ensure_base64_password decode encode sha256 password method)
          method
        ≡ ensure_base64_password decode encode sha256 password method
  unfolding ensure_base64_password
  ensure_base64_password_idempotent method password known =
      ground (arith, ensure_base64_password-fits method password known)
