-- ===== src/Storage/Keys.antt =====
-- The keys and the URL prefixes of api/app/core/storage.py.
use proyecto_1_back.Prelude.{
  ◌≡◌, refl, ap, sym, ◌∙◌, false, ◌∷◌, ◌++◌, any, ◌==◌, Bool-cases, inl, inr,
}
use mathlib.Core.List.{append_assoc}
use proyecto_1_back.Text.{Text}
use proyecto_1_back.Text.Split.{before_last, before_last-append, after_last-plain}
use proyecto_1_back.Storage.{extension, generate_object_key}

extension-plain : (filename : Text) → any (λ c. c == 46) (extension filename) ≡ false
extension-plain filename = elim (Bool-cases (any (λ c. c == 46) filename)) [
  | inl e ↦ rw e (after_last-plain 46 filename)
  | inr e ↦ rw e refl
]

-- A key without its extension: the file name is gone.
pub before_last-generate_object_key :
    (unique prefix filename : Text)
    → before_last 46 (generate_object_key unique prefix filename) ≡ prefix ++ (47 ∷ unique)
unfolding generate_object_key
before_last-generate_object_key unique prefix filename =
    ap (before_last 46) (sym (append_assoc prefix (47 ∷ unique) (46 ∷ extension filename)))
    ∙ before_last-append 46 (prefix ++ (47 ∷ unique)) (extension filename)
        (extension-plain filename)
