-- ===== src/Schemas/Passwords.antt =====
-- `RegisterRequest.password` of api/app/schemas/auth.py. Which code points `\d` takes is a table of the
-- Unicode standard: it is the parameter `is_digit`.
use proyecto_1_back.Prelude.{
  ℕ, ◌≡◌, ◌↔◌, refl, Bool, true, not, ◌||◌, ◌&&◌, any, leb, if◌then◌else◌, Bool-cases, inl, inr,
}
use proyecto_1_back.Http.{Result, ok, err, value_error_of, message}
use proyecto_1_back.Text.{Text}

-- `[a-zA-Z]`
abbrev pub is_letter : ℕ → Bool
is_letter c = (leb 97 c && leb c 122) || (leb 65 c && leb c 90)

module _ (is_digit : ℕ → Bool) where
  unfoldable pub validate_password : Text → Result Text
  validate_password v =
      if not (any is_letter v)
      then err (value_error_of (message "Password must contain at least one letter"))
      else (if not (any is_digit v)
          then err (value_error_of (message "Password must contain at least one number"))
          else ok v)

  -- A password passes exactly when it has a letter and a digit.
  pub validate_password_iff :
      (v : Text) → (validate_password v ≡ ok v) ↔ ((any is_letter v && any is_digit v) ≡ true)
  unfolding validate_password
  validate_password_iff v = elim (Bool-cases (any is_letter v)) [
    | inl l ↦ elim (Bool-cases (any is_digit v)) [
      | inl d ↦ rw (l, d) ((λ _. refl), (λ _. refl))
      | inr d ↦ rw (l, d) ((λ h. absurd (cc h)), (λ h. absurd (cc h)))
    ]
    | inr l ↦ rw l ((λ h. absurd (cc h)), (λ h. absurd (cc h)))
  ]
