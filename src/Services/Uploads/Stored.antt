-- ===== src/Services/Uploads/Stored.antt =====
-- `process_and_upload_image` of api/app/services/upload_service.py on a store that keeps what it is given.
use proyecto_1_back.Prelude.{
  fun_ext, ◌≡◌, refl, ap, ◌∙◌, true, false, none, some, List, [], ◌∷◌, ◌++◌, any, Bool-cases, inl,
  inr, arith,
}
use mathlib.Core.List.{append_assoc}
use proyecto_1_back.Http.{Result, ok}
use proyecto_1_back.Text.{Text, codes, text_eq}
use proyecto_1_back.Config.{Backend, Settings}
use proyecto_1_back.Storage.{Client, get_storage, public_prefix, upload_file}
use proyecto_1_back.Storage.Keys.{before_last-generate_object_key}
use proyecto_1_back.Services.Uploads.{
  Variant, thumbnail, medium, large, variant_name, same_variant, PerVariant, at, Pillow,
  variant_key, url_at, upload_response, upload_one, upload_each, checked_payloads,
  process_and_upload_image,
}

-- What the documentation of both clients says of a call that succeeds.
pub record IsStore {S : Type 0} (client : Client S) : Type 0 where
  pub put_there :
      (key body content_type : Text) (s s' : S)
      → client.put_object key body content_type s ≡ (ok tt, s')
      → client.object key s' ≡ some body
  pub put_others :
      (key body content_type other : Text) (s s' : S)
      → client.put_object key body content_type s ≡ (ok tt, s')
      → text_eq key other ≡ false
      → client.object other s' ≡ client.object other s
  pub delete_gone :
      (key : Text) (s s' : S)
      → client.delete_object key s ≡ (ok tt, s')
      → client.object key s' ≡ none
  pub delete_others :
      (key other : Text) (s s' : S)
      → client.delete_object key s ≡ (ok tt, s')
      → text_eq key other ≡ false
      → client.object other s' ≡ client.object other s

-- a store that is reached and grants every upload
abbrev pub Accepts : {S : Type 0} → Client S → Type 0
Accepts {S} client =
    (key body content_type : Text) (s : S)
    → (s' : S) × (client.put_object key body content_type s ≡ (ok tt, s'))

-- Where a variant is stored, in plain words: the folder, the variant and the unique name.
abbrev pub stored_key : (Variant → Text) → Text → Variant → Text
stored_key unique prefix v = prefix ++ (47 ∷ (variant_name v ++ (47 ∷ (unique v ++ codes ".webp"))))

-- The file name that a client sends is not in the key.
pub variant_key-is :
    (unique : Variant → Text) (prefix filename : Text) (v : Variant)
    → variant_key (unique v) prefix filename v ≡ stored_key unique prefix v
unfolding variant_key
variant_key-is unique prefix filename v =
    ap (λ (t : Text). t ++ codes ".webp")
      (before_last-generate_object_key (unique v) (prefix ++ (47 ∷ variant_name v)) filename)
    ∙ append_assoc (prefix ++ (47 ∷ variant_name v)) (47 ∷ unique v) (codes ".webp")
    ∙ append_assoc prefix (47 ∷ variant_name v) (47 ∷ (unique v ++ codes ".webp"))

-- two texts with a common beginning
text_eq-append : (p s t : Text) → text_eq (p ++ s) (p ++ t) ≡ text_eq s t
unfolding text_eq
text_eq-append [] s t = refl
text_eq-append (c ∷ p) s t = ground (arith, text_eq-append p s t)

stored_key-distinct :
    (unique : Variant → Text) (prefix : Text) (u v : Variant)
    → same_variant v u ≡ false
    → text_eq (stored_key unique prefix u) (stored_key unique prefix v) ≡ false
unfolding text_eq
stored_key-distinct unique prefix thumbnail thumbnail h = absurd (cc h)
stored_key-distinct unique prefix thumbnail medium h = text_eq-append prefix _ _
stored_key-distinct unique prefix thumbnail large h = text_eq-append prefix _ _
stored_key-distinct unique prefix medium thumbnail h = text_eq-append prefix _ _
stored_key-distinct unique prefix medium medium h = absurd (cc h)
stored_key-distinct unique prefix medium large h = text_eq-append prefix _ _
stored_key-distinct unique prefix large thumbnail h = text_eq-append prefix _ _
stored_key-distinct unique prefix large medium h = text_eq-append prefix _ _
stored_key-distinct unique prefix large large h = absurd (cc h)

same_variant-eq : (v u : Variant) → same_variant v u ≡ true → v ≡ u
unfolding text_eq
same_variant-eq thumbnail thumbnail h = refl
same_variant-eq thumbnail medium h = absurd (cc h)
same_variant-eq thumbnail large h = absurd (cc h)
same_variant-eq medium thumbnail h = absurd (cc h)
same_variant-eq medium medium h = refl
same_variant-eq medium large h = absurd (cc h)
same_variant-eq large thumbnail h = absurd (cc h)
same_variant-eq large medium h = absurd (cc h)
same_variant-eq large large h = refl

module _ {S : Type 0} (client : Client S) (store : IsStore client) (accepts : Accepts client)
    (settings : Settings) (backend : Backend) (chosen : get_storage settings ≡ ok backend)
    (key : Variant → Text)
    (distinct : (u v : Variant) → same_variant v u ≡ false → text_eq (key u) (key v) ≡ false)
    (payloads : PerVariant Text) where
  abbrev url : Variant → Text
  url v = public_prefix settings backend ++ (47 ∷ key v)

  abbrev Holds : Variant → S → Type 0
  Holds v s = client.object (key v) s ≡ some (at payloads v)

  -- the uploads of a list of variants, from a state
  record Sent (order : List Variant) (s : S) : Type 0 where
    pub results : List (Variant × Text)
    pub after : S
    pub is : upload_each client settings key payloads order s ≡ (ok results, after)
    pub there : (v : Variant) → any (same_variant v) order ≡ true → Holds v after
    pub urls : (v : Variant) → any (same_variant v) order ≡ true → url_at results v ≡ some (url v)
    pub kept : (v : Variant) → Holds v s → Holds v after
    pub others :
        (k : Text)
        → ((v : Variant) → text_eq (key v) k ≡ false)
        → client.object k after ≡ client.object k s

  -- one upload
  record SentOne (v : Variant) (s : S) : Type 0 where
    pub after : S
    pub is : upload_one client settings key payloads v s ≡ (ok (url v), after)
    pub there : Holds v after
    pub kept : (u : Variant) → Holds u s → Holds u after
    pub others : (k : Text) → text_eq (key v) k ≡ false → client.object k after ≡ client.object k s

  send_one : (v : Variant) (s : S) → SentOne v s
  unfolding upload_one upload_file
  send_one v s =
      let put = accepts (key v) (at payloads v) (codes "image/webp") s in
      let there = store.put_there (key v) (at payloads v) (codes "image/webp") s put.0 put.1 in
      let others = λ (k : Text) (e : text_eq (key v) k ≡ false).
        store.put_others (key v) (at payloads v) (codes "image/webp") k s put.0 put.1 e in
      record {
        after = put.0;
        is = rw (chosen, put.1) refl;
        there = there;
        kept = λ u h. elim (Bool-cases (same_variant u v)) [
          | inl e ↦ rw (same_variant-eq u v e) there
          | inr e ↦ others (key u) (distinct v u e) ∙ h
        ];
        others = others;
      }

  send : (order : List Variant) (s : S) → Sent order s
  unfolding upload_each url_at
  send [] s = record {
    results = [];
    after = s;
    is = refl;
    there = λ v h. absurd (cc h);
    urls = λ v h. absurd (cc h);
    kept = λ v h. h;
    others = λ k h. refl;
  }
  send (u ∷ order) s =
      let one = send_one u s in
      let rest = send order one.after in
      record {
        results = (u, url u) ∷ rest.results;
        after = rest.after;
        is = rw (one.is, rest.is) refl;
        there = λ v h. elim (Bool-cases (same_variant v u)) [
          | inl e ↦ rest.kept v (rw (same_variant-eq v u e) one.there)
          | inr e ↦ rest.there v (rw e at h)
        ];
        urls = λ v h. elim (Bool-cases (same_variant v u)) [
          | inl e ↦ rw e (rw (same_variant-eq v u e) refl)
          | inr e ↦ rw e (rest.urls v (rw e at h))
        ];
        kept = λ v h. rest.kept v (one.kept v h);
        others = λ k h. rest.others k h ∙ one.others k (h u);
      }

  -- every variant is in the order of the uploads
  abbrev pub IsComplete : List Variant → Type 0
  IsComplete order = (v : Variant) → any (same_variant v) order ≡ true

  response_of :
      (order : List Variant) (s : S) (sent : Sent order s)
      → IsComplete order
      → upload_response sent.results
        ≡ ok (record { at_thumbnail = url thumbnail; at_medium = url medium; at_large = url large })
  unfolding upload_response
  response_of order s sent all =
      rw
        (
          sent.urls thumbnail (all thumbnail),
          sent.urls medium (all medium),
          sent.urls large (all large),
        )
        refl

-- the public URL of a variant
abbrev pub stored_url : Settings → Backend → (Variant → Text) → Text → Variant → Text
stored_url settings backend unique prefix v =
    public_prefix settings backend ++ (47 ∷ stored_key unique prefix v)

at-each :
    (f : Variant → Text) (v : Variant)
    → at (record { at_thumbnail = f thumbnail; at_medium = f medium; at_large = f large }) v ≡ f v
at-each f thumbnail = refl
at-each f medium = refl
at-each f large = refl

-- An image that passes the tests and that Pillow can resize is stored, on a store that grants every
-- upload and with the uploads in any order: the response has the URL of each variant, whose key is
-- the folder, the variant and the unique name and has nothing of the file name; under it stands what
-- Pillow made of the image for this variant, and every other object is as it was.
pub process_and_upload_image_stores :
    {S I : Type 0} (client : Client S)
    → IsStore client
    → Accepts client
    → (settings : Settings) (backend : Backend) → get_storage settings ≡ ok backend
    → (pillow : Pillow I) (allowed : List Text) (unique : Variant → Text) (order : List Variant)
    → ((v : Variant) → any (same_variant v) order ≡ true)
    → (file_bytes content_type prefix original_filename : Text) (payloads : PerVariant Text)
    → checked_payloads client settings pillow allowed file_bytes content_type ≡ ok payloads
    → (s : S)
    → (urls : PerVariant Text) × (s' : S) × (process_and_upload_image client settings pillow allowed
          unique order file_bytes content_type prefix original_filename s
        ≡ (ok urls, s'))
      × ((v : Variant)
          → (at urls v ≡ stored_url settings backend unique prefix v)
            × (client.object (stored_key unique prefix v) s' ≡ some (at payloads v)))
      × ((k : Text)
          → ((v : Variant) → text_eq (stored_key unique prefix v) k ≡ false)
          → client.object k s' ≡ client.object k s)
unfolding process_and_upload_image
process_and_upload_image_stores client store accepts settings backend chosen pillow allowed unique
      order all file_bytes content_type prefix original_filename payloads checked s =
    let key = stored_key unique prefix in
    let distinct = stored_key-distinct unique prefix in
    let sent = send client store accepts settings backend chosen key distinct payloads order s in
    let keys = fun_ext (λ (v : Variant). variant_key-is unique prefix original_filename v) in
    (
      record {
        at_thumbnail = stored_url settings backend unique prefix thumbnail;
        at_medium = stored_url settings backend unique prefix medium;
        at_large = stored_url settings backend unique prefix large;
      },
      sent.after,
      rw (checked, keys, sent.is)
          (ap (λ (r : Result (PerVariant Text)). (r, sent.after))
            (response_of client store accepts settings backend chosen key distinct payloads order s
              sent all)),
      (λ v. (at-each (stored_url settings backend unique prefix) v, sent.there v (all v))),
      sent.others,
    )
