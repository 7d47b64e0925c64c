-- ===== src/Slug.antt =====
-- api/app/utils/slug.py: `generate_slug` and `make_unique_slug`.
pub mod Shape
pub mod Unique
use proyecto_1_back.Prelude.{
  ℕ, zero, suc, ◌+◌, ◌≡◌, Bool, true, false, ◌&&◌, ◌||◌, List, [], ◌∷◌, ◌++◌, map, filter, take,
  length, any, ltb, leb, ◌==◌, if◌then◌else◌,
}
use proyecto_1_back.Text.{Text, lower, text_eq, rstrip, strip}
use proyecto_1_back.Text.Decimal.{decimal}

abbrev pub hyphen : ℕ
hyphen = 45

-- `.replace(" ", "-").replace("_", "-")`, character by character
unfoldable pub to_hyphen : ℕ → ℕ
to_hyphen c = if c == 32 || c == 95 then hyphen else c

-- a character that `[^a-z0-9\-.]` does not match
unfoldable pub is_slug_char : ℕ → Bool
is_slug_char c = (leb 97 c && leb c 122) || (leb 48 c && leb c 57) || c == hyphen || c == 46

-- One step of `re.sub(r"-+", "-", s)`, from the right: a hyphen before a hyphen is dropped.
unfoldable pub push_char : ℕ → Text → Text
push_char c [] = c ∷ []
push_char c (d ∷ s) = if c == hyphen && d == hyphen then d ∷ s else c ∷ d ∷ s

unfoldable pub collapse : Text → Text
unfolding push_char
collapse [] = []
collapse (c ∷ s) = push_char c (collapse s)

-- the last step of `generate_slug`
unfoldable pub truncate : ℕ → Text → Text
truncate max_length slug =
    if ltb max_length (length slug) then rstrip hyphen (take max_length slug) else slug

unfoldable pub generate_slug : (ℕ → Text) → Text → ℕ → Text
generate_slug wide text max_length =
    truncate max_length
      (strip hyphen (collapse (filter is_slug_char (map to_hyphen (lower wide text)))))

-- `f"{base_slug}-{i}"`
unfoldable pub candidate : Text → ℕ → Text
candidate base_slug i = base_slug ++ hyphen ∷ decimal i

-- `s in existing`
unfoldable pub is_member : Text → List Text → Bool
is_member s existing = any (text_eq s) existing

-- `for i in range(i, i + rounds)`, then the text that ends in eight characters of a UUID
unfoldable pub first_free : ℕ → ℕ → Text → List Text → Text → Text
first_free zero i base_slug existing short_uuid = base_slug ++ hyphen ∷ short_uuid
first_free (suc rounds) i base_slug existing short_uuid =
    let later = first_free rounds (suc i) base_slug existing short_uuid in
    if is_member (candidate base_slug i) existing then later else candidate base_slug i

unfoldable pub make_unique_slug : Text → List Text → Text → Text
make_unique_slug base_slug existing_slugs short_uuid =
    if is_member base_slug existing_slugs
    then first_free 99 1 base_slug existing_slugs short_uuid
    else base_slug
