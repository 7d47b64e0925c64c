-- ===== src/Api/Uploads/Refused.antt =====
-- `upload_image` of api/app/api/routers/upload.py: who may upload, and what.
use proyecto_1_back.Prelude.{
  ◌*◌, ◌≤◌, ◌≡◌, refl, ◌⊎◌, inl, inr, true, List, any, ltb, length, Bool-cases, arith,
}
use proyecto_1_back.Http.{
  Exc, Result-cases, ok, err, value_error, value_error_of, too_large, invalid_type, http,
  integrity_error, multiple_results, jwt_error, attribute_error, key_error, runtime_error,
  library_error, out_of_fuel, bad_request,
}
use proyecto_1_back.Text.{Text, codes, text_eq}
use proyecto_1_back.Env.{Env}
use proyecto_1_back.Models.{Restaurant}
use proyecto_1_back.App.{World}
use proyecto_1_back.Config.{Settings, truthy}
use proyecto_1_back.Storage.{Client}
use proyecto_1_back.Services.Uploads.{
  Pillow, Variant, PerVariant, allowed_content_types, checked_payloads, process_and_upload_image,
  variant_data, get_executor,
}
use proyecto_1_back.Api.{Bearer}
use proyecto_1_back.Api.Uploads.{
  Folder, UploadFile, or_default, owner, upload_image, value_errors_as_400,
}

-- the content type that an upload is tested by
abbrev pub type_of : UploadFile → Text
type_of file = or_default (truthy file.content_type) (codes "application/octet-stream")

-- an exception stays one
value_errors_as_400-err :
    {A : Type 0} (e : Exc) → (f : Exc) × (value_errors_as_400 {A = A} (err e) ≡ err f)
unfolding value_errors_as_400
value_errors_as_400-err (http n d) = (http n d, refl)
value_errors_as_400-err integrity_error = (integrity_error, refl)
value_errors_as_400-err multiple_results = (multiple_results, refl)
value_errors_as_400-err jwt_error = (jwt_error, refl)
value_errors_as_400-err attribute_error = (attribute_error, refl)
value_errors_as_400-err key_error = (key_error, refl)
value_errors_as_400-err value_error = (bad_request "", refl)
value_errors_as_400-err (value_error_of d) = (http 400 d, refl)
value_errors_as_400-err runtime_error = (runtime_error, refl)
value_errors_as_400-err library_error = (library_error, refl)
value_errors_as_400-err out_of_fuel = (out_of_fuel, refl)

module _ {S I : Type 0} (client : Client S) (settings : Settings) (env : Env) (pillow : Pillow I)
    (allowed : List Text) where
  -- what holds when an upload goes on to the store
  pub record Granted (b : Bearer) (file : UploadFile) (w : World) : Type 0 where
    pub restaurant : Restaurant
    pub owned : owner client settings env b w ≡ ok restaurant
    pub small : length file.content ≤ settings.image_max_size_mb * 1024 * 1024
    pub is_image : any (text_eq (type_of file)) allowed_content_types ≡ true
    pub has_threads : get_executor client settings ≡ ok tt
    pub payloads : PerVariant Text
    pub resized : variant_data pillow file.content ≡ ok payloads

  -- An upload answers with an exception and leaves the bucket as it was, or the user of the token has a
  -- restaurant, the file is within the limit, its type is one of the three allowed ones, threads are
  -- configured, and Pillow could resize it for every variant.
  pub upload_image-Granted :
      (unique : Variant → Text) (order : List Variant) (b : Bearer) (file : UploadFile)
      (prefix : Folder) (w : World) (s : S)
      → ((e : Exc) × (upload_image client settings env pillow allowed unique order b file prefix w s
            ≡ (err e, s)))
        ⊎ Granted b file w
  unfolding upload_image process_and_upload_image checked_payloads value_errors_as_400
  upload_image-Granted unique order b file prefix w s =
      elim (Result-cases (owner client settings env b w)) [
        | inl (e, none_owned) ↦ inl (e, rw none_owned refl)
        | inr (restaurant, owned) ↦
            elim (Bool-cases
              (ltb (settings.image_max_size_mb * 1024 * 1024) (length file.content))) [
                | inl large ↦
                    inl (http 400 (too_large settings.image_max_size_mb), rw (owned, large) refl)
                | inr small ↦
                    elim (Bool-cases (any (text_eq (type_of file)) allowed_content_types)) [
                      | inr no_image ↦
                          inl (http 400 (invalid_type allowed), rw (owned, small, no_image) refl)
                      | inl is_image ↦ elim (Result-cases (get_executor client settings)) [
                        | inl (e, no_threads) ↦
                            let refused = value_errors_as_400-err {A = PerVariant Text} e in
                            inl (refused.0, rw (owned, small, is_image, no_threads, refused.1) refl)
                        | inr (u, threads) ↦
                            elim (Result-cases (variant_data pillow file.content)) [
                              | inl (e, failed) ↦
                                  let refused = value_errors_as_400-err {A = PerVariant Text} e in
                                  inl (
                                    refused.0,
                                    rw (owned, small, is_image, threads, failed, refused.1) refl,
                                  )
                              | inr (payloads, resized) ↦ inr (record {
                                restaurant = restaurant;
                                owned = owned;
                                small = ground (arith, small);
                                is_image = is_image;
                                has_threads = threads;
                                payloads = payloads;
                                resized = resized;
                              })
                            ]
                      ]
                    ]
              ]
      ]
