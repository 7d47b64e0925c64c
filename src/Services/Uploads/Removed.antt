-- ===== src/Services/Uploads/Removed.antt =====
-- `delete_image` of api/app/services/upload_service.py.
use proyecto_1_back.Prelude.{ℕ, suc, ◌≡◌, refl, false, none, [], ◌∷◌, ◌++◌, length, drop}
use proyecto_1_back.Http.{ok}
use proyecto_1_back.Text.{Text, text_eq, starts_with-append}
use proyecto_1_back.Text.Strip.{ends_with, rstrip_fixed}
use proyecto_1_back.Config.{Backend, Settings}
use proyecto_1_back.Storage.{Client, get_storage, public_prefix, get_public_prefix, delete_file}
use proyecto_1_back.Services.Uploads.{delete_image}
use proyecto_1_back.Services.Uploads.Stored.{IsStore}

drop-prefix_any :
    (prefix : Text) (c : ℕ) (key : Text) → drop (suc (length prefix)) (prefix ++ (c ∷ key)) ≡ key
drop-prefix_any [] c key = refl
drop-prefix_any (d ∷ prefix) c key = drop-prefix_any prefix c key

-- An object is removed by the URL that its upload returned, the prefix of the backend, a slash and the
-- key, when the prefix does not end with a slash and the store grants the removal: nothing stands under
-- the key afterwards, and every other object is as it was. The code does not look at the slash: any
-- character `c` in its place does the same.
pub delete_image_removes :
    {S : Type 0} (client : Client S)
    → IsStore client
    → (settings : Settings) (backend : Backend) → get_storage settings ≡ ok backend
    → ends_with 47 (public_prefix settings backend) ≡ false
    → (c : ℕ) (key : Text) (s s' : S) → client.delete_object key s ≡ (ok tt, s')
    → (delete_image client settings (public_prefix settings backend ++ (c ∷ key)) s ≡ (ok tt, s'))
      × (client.object key s' ≡ none)
      × ((other : Text)
          → text_eq key other ≡ false
          → client.object other s' ≡ client.object other s)
unfolding delete_image delete_file get_public_prefix
delete_image_removes client store settings backend chosen ends c key s s' granted =
    let prefix = public_prefix settings backend in
    (
      rw
          (
            chosen,
            rstrip_fixed 47 prefix ends,
            starts_with-append prefix (c ∷ key),
            drop-prefix_any prefix c key,
            chosen,
          )
          granted,
      store.delete_gone key s s' granted,
      λ other e. store.delete_others key other s s' granted e,
    )
