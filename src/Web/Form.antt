-- ===== src/Web/Form.antt =====
-- internal/web/web.go: the values of a form, and the step that asks to confirm them.
use go_elite_log.Base.{
  ◌≡◌, ◌≢◌, refl, sym, ap, Bool, true, false, List, [], ◌∷◌, ◌++◌, if◌then◌else◌, Bool-cases, inl,
  inr,
}
use go_elite_log.Text.{Text, codes, text_eq}
use go_elite_log.Text.Parts.{text_eq_iff}
use Prim.Native.String.{String}

-- Names with their values, in order.
abbrev pub Values : Type 0
Values = List (Text × Text)

-- `r.FormValue`: the first value of a name, or the empty text.
unfoldable pub form_value : Values → Text → Text
form_value [] name = []
form_value ((n, v) ∷ vs) name = if text_eq n name then v else form_value vs name

-- `r.FormValue(name) != ""`
abbrev pub is_filled : Text → Bool
is_filled [] = false
is_filled (c ∷ s) = true

abbrev pub confirm_name : Text
confirm_name = codes "confirm"

abbrev pub yes_text : Text
yes_text = codes "yes"

abbrev pub is_confirmed : Values → Bool
is_confirmed vs = text_eq (form_value vs confirm_name) yes_text

-- The hidden fields of `confirmForm`.
unfoldable pub other_fields : Values → Values
other_fields [] = []
other_fields ((n, v) ∷ vs) =
    if text_eq n confirm_name then other_fields vs else (n, v) ∷ other_fields vs

unfoldable pub confirm_fields : Values → Values
unfolding other_fields
confirm_fields vs = other_fields vs ++ ((confirm_name, yes_text) ∷ [])

-- `confirmForm`: where it posts to, where its cancel button leads, its warning and its fields.
pub record Confirm : Type 0 where
  pub action : String
  pub cancel : String
  pub warning : String
  pub fields : Values

other_than_confirm :
    (name : Text) → text_eq name confirm_name ≡ false → text_eq confirm_name name ≡ false
other_than_confirm name h = elim (Bool-cases (text_eq confirm_name name)) [
  | inl same ↦
      let e : name ≡ confirm_name = sym ((text_eq_iff confirm_name name).0 same) in
      let again : text_eq name confirm_name ≡ true = (text_eq_iff name confirm_name).1 e in cc
  | inr other ↦ other
]

form_value-confirm_fields :
    (vs : Values) (name : Text)
    → text_eq name confirm_name ≡ false
    → form_value (confirm_fields vs) name ≡ form_value vs name
unfolding form_value confirm_fields
form_value-confirm_fields [] name h = rw (other_than_confirm name h) refl
form_value-confirm_fields ((n, v) ∷ vs) name h = elim (Bool-cases (text_eq n confirm_name)) [
  | inl confirm ↦
      let e : n ≡ confirm_name = (text_eq_iff n confirm_name).0 confirm in
      rw (e, other_than_confirm name h) (form_value-confirm_fields vs name h)
  | inr other ↦
      rw other (ap (λ t. if text_eq n name then v else t) (form_value-confirm_fields vs name h))
]

confirm_fields-confirm : (vs : Values) → form_value (confirm_fields vs) confirm_name ≡ yes_text
unfolding form_value confirm_fields
confirm_fields-confirm [] = refl
confirm_fields-confirm ((n, v) ∷ vs) = elim (Bool-cases (text_eq n confirm_name)) [
  | inl confirm ↦ rw confirm (confirm_fields-confirm vs)
  | inr other ↦ rw (other, other) (confirm_fields-confirm vs)
]

-- The fields that `confirmForm` posts again are confirmed, and every field but the confirmation
-- has the value that it had.
pub confirm_fields_lem :
    (vs : Values)
    → (is_confirmed (confirm_fields vs) ≡ true)
      × ((name : Text)
          → name ≢ confirm_name
          → form_value (confirm_fields vs) name ≡ form_value vs name)
confirm_fields_lem vs = (
  (text_eq_iff (form_value (confirm_fields vs) confirm_name) yes_text).1
      (confirm_fields-confirm vs),
  λ name ne. form_value-confirm_fields vs name (not_confirm name ne),
)
  where
    not_confirm : (name : Text) → name ≢ confirm_name → text_eq name confirm_name ≡ false
    not_confirm name ne = elim (Bool-cases (text_eq name confirm_name)) [
      | inl same ↦ absurd (ne ((text_eq_iff name confirm_name).0 same))
      | inr other ↦ other
    ]
