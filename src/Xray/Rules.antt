-- ===== src/Xray/Rules.antt =====
-- backend/xray/config.go: the rules that ApplyAPI leaves.
use pasarguard_node.Prelude.{
  String, ◌≡◌, refl, ◌∙◌, Bool, false, Option, none, some, List, [], ◌∷◌, ◌++◌, arith, ◌==◌,
  eq_refl, inl, inr, ◌↔◌, Bool-cases, Option-cases, map,
}
use pasarguard_node.Dict
use pasarguard_node.Dict.{Dict, get-put, get-remove, get-empty}
use pasarguard_node.Xray.Routing.{
  Entry, text, Value, one, many, Rule, invalid, object, is_own, private_cidrs, is_private,
  has_private, replace_entries, replace_geoip_private, put_replaced, replaced, normalize_field,
}

-- No field of the rule that geoip:private is replaced in names it.
unfoldable pub names_private : (String → String → Bool) → Option Value → Bool
unfolding has_private
names_private equal_fold (some (many entries)) = has_private equal_fold entries
names_private equal_fold _ = false

-- A rule of the panel's that stays: it is not the node's own, and names no geoip:private.
abbrev pub IsPlain : (String → String → Bool) → Rule → Type 0
IsPlain equal_fold (invalid raw) = ⊥
IsPlain equal_fold (object obj) =
    (is_own obj ≡ false)
    × (names_private equal_fold (Dict.get obj "ip") ≡ false)
    × (names_private equal_fold (Dict.get obj "source") ≡ false)

abbrev pub AllPlain : (String → String → Bool) → List Rule → Type 0
AllPlain equal_fold [] = Unit
AllPlain equal_fold (r ∷ rules) = IsPlain equal_fold r × AllPlain equal_fold rules

-- EqualFold tells geoip:private from the networks that stand for it.
abbrev pub NoneFolds : (String → String → Bool) → List String → Type 0
NoneFolds equal_fold [] = Unit
NoneFolds equal_fold (s ∷ ss) = (equal_fold s "geoip:private" ≡ false) × NoneFolds equal_fold ss

module _ (equal_fold : String → String → Bool) where
  has_private-append :
      (ss : List String) (es : List Entry)
      → NoneFolds equal_fold ss
      → has_private equal_fold es ≡ false
      → has_private equal_fold (map text ss ++ es) ≡ false
  unfolding has_private is_private
  has_private-append [] es n h = h
  has_private-append (s ∷ ss) es n h = ground (arith, n.0, has_private-append ss es n.1 h)

  has_private-replace_entries :
      NoneFolds equal_fold private_cidrs
      → (es : List Entry) → has_private equal_fold (replace_entries equal_fold es) ≡ false
  unfolding has_private replace_entries
  has_private-replace_entries n [] = refl
  has_private-replace_entries n (e ∷ es) = elim (Bool-cases (is_private equal_fold e)) [
    | inl p ↦ rw p (
        has_private-append private_cidrs (replace_entries equal_fold es) n
          (has_private-replace_entries n es))
    | inr p ↦ rw (p, p) (has_private-replace_entries n es)
  ]

  pub normalize_field-other :
      (key other : String) (obj : Dict Value)
      → (key == other) ≡ false
      → Dict.get (normalize_field equal_fold key obj) other ≡ Dict.get obj other
  unfolding normalize_field
  normalize_field-other key other obj d =
      elim (Option-cases (replaced equal_fold (Dict.get obj key))) [
        | inl m ↦ rw (m, put_replaced) refl
        | inr (w, t) ↦ rw (t, put_replaced) (get-put obj key other w ∙ rw d refl)
      ]

  names_private-replaced :
      NoneFolds equal_fold private_cidrs
      → (o : Option Value) (w : Value) → replaced equal_fold o ≡ some w
      → names_private equal_fold (some w) ≡ false
  unfolding names_private replaced replace_geoip_private
  names_private-replaced n none w h = cc h
  names_private-replaced n (some (one e)) w h = cc h
  names_private-replaced n (some (many es)) w h = ground (arith, has_private-replace_entries n es)

  -- What is not replaced names no geoip:private.
  names_private-kept :
      (o : Option Value) → (replaced equal_fold o ≡ none) ↔ (names_private equal_fold o ≡ false)
  unfolding names_private replaced replace_geoip_private
  names_private-kept none = (λ h. refl, λ h. refl)
  names_private-kept (some (one e)) = (λ h. refl, λ h. refl)
  names_private-kept (some (many es)) = (λ h. ground arith, λ h. ground arith)

  pub normalize_field-private :
      NoneFolds equal_fold private_cidrs
      → (key : String) (obj : Dict Value)
      → names_private equal_fold (Dict.get (normalize_field equal_fold key obj) key) ≡ false
  unfolding normalize_field
  normalize_field-private n key obj = elim (Option-cases (replaced equal_fold (Dict.get obj key))) [
    | inl m ↦ rw (m, put_replaced) ((names_private-kept (Dict.get obj key)).0 m)
    | inr (w, t) ↦
        rw (t, put_replaced, get-put obj key key w, eq_refl key)
          (names_private-replaced n (Dict.get obj key) w t)
  ]

  -- A field that names no geoip:private stays as it is, and so does the rule.
  pub normalize_field-plain :
      (key : String) (obj : Dict Value)
      → names_private equal_fold (Dict.get obj key) ≡ false
      → normalize_field equal_fold key obj ≡ obj
  unfolding normalize_field
  normalize_field-plain key obj h =
      rw ((names_private-kept (Dict.get obj key)).1 h, put_replaced) refl
