-- ===== src/Xray/Examples.antt =====
-- Tests of the Xray core, and the theorems about it at concrete inputs.
use Prim.Native.Char.{code}
use pasarguard_node.Prelude.{
  ℕ, zero, suc, ◌+◌, ◌≡◌, refl, ◌∙◌, ap, String, true, false, Option, none, some, List, [], ◌∷◌,
  arith, nat_beq, if◌then◌else◌, length,
}
use pasarguard_node.Dict
use pasarguard_node.User.{User, no_proxy}
use pasarguard_node.Xray.Accounts.{Account, trojan_account, map_option, setup_user_account}
use pasarguard_node.Xray.Passwords.{fits, ensure_base64_password, ensure_base64_password-fits}
use pasarguard_node.Xray.Inbounds.{
  Codecs, Inbound, family_of, shadowsocks_family, account_for_api, sync_clients, is_active_inbound,
}
use pasarguard_node.Xray.Users.{Answers, update_inbound, update_turn}
use pasarguard_node.Xray.Settled.{IsLawful, names_cipher, last_account, is_removed}
use pasarguard_node.Xray.Standing.{update_inbound-eq-sync_clients}
use pasarguard_node.Xray.Running.{held}
use pasarguard_node.Xray.Agreement.{Start}
use pasarguard_node.Xray.InStep.{update_turn-named_twice}
use pasarguard_node.Xray.History.{Event, synced, updated}

-- A code for bytes: as many times `a` as the byte says, and `b`.
unary : ℕ → String → String
unary zero rest = String.◌∷◌ "b" rest
unary (suc n) rest = String.◌∷◌ "a" (unary n rest)

encode : List ℕ → String
encode [] = ""
encode (b ∷ bs) = unary b (encode bs)

decode_from : ℕ → String → Option (List ℕ)
decode_from n String.[] = some []
decode_from n (String.◌∷◌ c s) =
    let further = decode_from (suc n) s in
    let rest = decode_from 0 s in
    if nat_beq (code c) 97 then further else map_option (λ bs. n ∷ bs) rest

decode_from-unary :
    (n m : ℕ) (s : String)
    → decode_from m (unary n s) ≡ map_option (λ bs. (m + n) ∷ bs) (decode_from 0 s)
unfolding decode_from unary
decode_from-unary zero m s = let same : m + zero ≡ m = omega arith in rw same refl
decode_from-unary (suc n) m s =
    let same : m + suc n ≡ suc m + n = omega arith in rw same (decode_from-unary n (suc m) s)

decode_from-encode : (bs : List ℕ) → decode_from 0 (encode bs) ≡ some bs
unfolding encode decode_from
decode_from-encode [] = refl
decode_from-encode (b ∷ bs) =
    let same : 0 + b ≡ b = omega arith in
    decode_from-unary b 0 (encode bs)
    ∙ ap (map_option (λ l. (0 + b) ∷ l)) (decode_from-encode bs)
    ∙ rw same refl

zeros : ℕ → List ℕ
zeros zero = []
zeros (suc n) = 0 ∷ zeros n

abbrev codecs : Codecs
codecs = record {
  parse_uuid = some;
  decode = decode_from 0;
  encode = encode;
  sha256 = λ s. zeros 32;
}

zeros_length : length (zeros 32) ≡ 32
unfolding zeros
zeros_length = refl

codecs-IsLawful : IsLawful codecs
codecs-IsLawful = record { decode_encode = decode_from-encode; length_sha256 = λ s. zeros_length }

ensure_base64_password-fits_example :
    fits "2022-blake3-aes-128-gcm" (
      decode_from 0 (
        ensure_base64_password
          (decode_from 0)
          encode
          (λ s. zeros 32)
          "secret"
          "2022-blake3-aes-128-gcm"))
    ≡ true
ensure_base64_password-fits_example =
    ensure_base64_password-fits (decode_from 0) encode (λ s. zeros 32) decode_from-encode
      (λ s. zeros_length) "2022-blake3-aes-128-gcm" "secret" refl

abbrev trojan_inbound : Inbound
trojan_inbound = record {
  tag = "in";
  listen = "";
  protocol = "trojan";
  method = none;
  flow = none;
  exclude = false;
  clients = Dict.empty;
}

-- Two keys for two passwords, so that an inbound of Shadowsocks 2022 has something to check.
abbrev shadowsocks_inbound : Inbound
shadowsocks_inbound = record trojan_inbound {
  tag = "ss";
  protocol = "shadowsocks";
  method = some "2022-blake3-aes-128-gcm";
}

abbrev alice : User
alice = record {
  email = "alice";
  proxies = some (record no_proxy {
    trojan = some (record { password = "pw" });
    shadowsocks = some (record { password = "key"; method = "aes-128-gcm" });
  });
  inbounds = "in" ∷ "ss" ∷ [];
}

-- The user of alice, after the inbounds were taken away.
abbrev gone : User
gone = record alice { inbounds = [] }

abbrev bob : User
bob = record alice { email = "bob" }

abbrev carol : User
carol = record gone { email = "carol" }

abbrev accepts : Answers
accepts calls tag a = none

abbrev before : Start
before tag e = none

abbrev config : List Inbound
config = shadowsocks_inbound ∷ trojan_inbound ∷ []

known : names_cipher (family_of shadowsocks_inbound) ≡ true
unfolding names_cipher family_of shadowsocks_family
known = refl

known_trojan : names_cipher (family_of trojan_inbound) ≡ true
unfolding names_cipher family_of
known_trojan = refl

update_inbound-eq-sync_clients_example :
    Dict.get (update_inbound codecs (alice ∷ carol ∷ []) shadowsocks_inbound).clients "alice"
    ≡ Dict.get (sync_clients codecs (alice ∷ carol ∷ []) shadowsocks_inbound).clients "alice"
update_inbound-eq-sync_clients_example =
    update_inbound-eq-sync_clients codecs shadowsocks_inbound codecs-IsLawful known
      (alice ∷ carol ∷ []) (refl, (refl, tt)) "alice" refl

abbrev account : Account
account = trojan_account (record { base = record { email = "alice"; level = 0 }; password = "pw" })

twice_accepted : (update_turn codecs accepts (gone ∷ alice ∷ []) trojan_inbound [] []).errors ≡ []
unfolding update_turn is_active_inbound setup_user_account
twice_accepted = refl

twice_removed : is_removed codecs trojan_inbound (gone ∷ alice ∷ []) "alice" ≡ true
unfolding is_removed is_active_inbound setup_user_account
twice_removed = refl

twice_last : last_account codecs trojan_inbound (gone ∷ alice ∷ []) "alice" ≡ some account
unfolding last_account is_active_inbound setup_user_account
twice_last = refl

update_turn-named_twice_example :
    (Dict.get
        (update_turn codecs accepts (gone ∷ alice ∷ []) trojan_inbound [] []).inbound.clients
        "alice"
      ≡ none)
    × (held
          (update_turn codecs accepts (gone ∷ alice ∷ []) trojan_inbound [] []).calls
          "in"
          "alice"
          none
        ≡ some (account_for_api trojan_inbound account))
update_turn-named_twice_example =
    update_turn-named_twice codecs codecs-IsLawful accepts before (gone ∷ alice ∷ []) trojan_inbound
      [] [] "alice" account known_trojan twice_accepted twice_removed twice_last

abbrev events : List (Event codecs accepts)
events = synced alice ∷ updated (bob ∷ gone ∷ []) ∷ []
