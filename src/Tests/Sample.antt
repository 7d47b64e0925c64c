-- ===== src/Tests/Sample.antt =====
-- A small service: stand-ins for the libraries, two users, a restaurant with two categories, a dish,
-- and a session.
use proyecto_1_back.Prelude.{ℕ, true, false, Option, none, some, [], ◌∷◌}
use proyecto_1_back.Prelude.Int.{pos}
use proyecto_1_back.Http.{Result, ok, err, jwt_error, value_error}
use proyecto_1_back.Text.{Text, codes}
use proyecto_1_back.Env.{Env, Payload}
use proyecto_1_back.Models.{
  Uuid, Time, User, Restaurant, Category, Dish, RefreshToken, Db, Defaults,
}
use proyecto_1_back.App.{World}
use proyecto_1_back.Services.Auth.{Issue, RefreshReads}

-- the first character, if there is one
abbrev pub first : Option Text → ℕ
first none = 0
first (some []) = 0
first (some (c ∷ s)) = c

abbrev pub text_of : Option Text → Text
text_of none = []
text_of (some s) = s

-- a token of the subject, the `jti` and the kind
abbrev pub encode : Payload → Text
encode p = first p.sub ∷ first p.jti ∷ text_of p.kind

abbrev pub decode : Time → Text → Result Payload
decode now [] = err jwt_error
decode now (sub ∷ []) = err jwt_error
decode now (sub ∷ jti ∷ kind) = ok (record {
  sub = some (sub ∷ []);
  email = some (codes "ana@x");
  kind = some kind;
  iat = none;
  nbf = none;
  exp = none;
  jti = some (jti ∷ []);
})

abbrev pub parse : Text → Result Uuid
parse [] = err value_error
parse (c ∷ s) = ok c

abbrev pub env : Env
env = record {
  wide = λ c. c ∷ [];
  sha256 = λ t. t;
  bcrypt_hash = λ salt password. password;
  bcrypt_verify = λ password hash. true;
  jwt_encode = encode;
  jwt_decode = decode;
  uuid_text = λ id. id ∷ [];
  uuid_parse = parse;
  ilike = λ text pattern. true;
  jwt_access_ttl_min = 30;
  jwt_refresh_ttl_days = 7;
}

abbrev pub ana : User
ana = record {
  id = 1;
  email = codes "ana@x";
  password_hash = codes "secret";
  created_at = 5;
  updated_at = 5;
}

abbrev pub bar : Restaurant
bar = record {
  id = 10;
  owner_user_id = 1;
  name = codes "Bar";
  slug = codes "bar";
  description = none;
  logo_url = none;
  phone = none;
  address = none;
  hours = none;
  created_at = 6;
  updated_at = 6;
}

abbrev pub drinks : Category
drinks = record {
  id = 20;
  restaurant_id = 10;
  name = codes "Drinks";
  description = none;
  position = pos 0;
  active = true;
  created_at = 7;
  updated_at = 7;
}

abbrev pub snacks : Category
snacks = record {
  id = 21;
  restaurant_id = 10;
  name = codes "Snacks";
  description = none;
  position = pos 3;
  active = true;
  created_at = 8;
  updated_at = 8;
}

abbrev pub beer : Dish
beer = record {
  id = 30;
  category_id = 20;
  name = codes "Beer";
  description = none;
  price = 350;
  sale_price = none;
  image_url = none;
  available = true;
  featured = false;
  tags = none;
  position = pos 0;
  created_at = 9;
  updated_at = 9;
  deleted_at = none;
}

-- the refresh token of a session of `ana`
abbrev pub old_token : Text
old_token = 1 ∷ 100 ∷ codes "refresh"

abbrev pub session : RefreshToken
session = record {
  id = 40;
  user_id = 1;
  token_hash = old_token;
  revoked_at = none;
  expires_at = 1000;
  created_at = 10;
}

abbrev pub stored : Db
stored = record {
  users = ana ∷ [];
  restaurants = bar ∷ [];
  categories = drinks ∷ snacks ∷ [];
  dishes = beer ∷ [];
  scan_events = [];
  refresh_tokens = session ∷ [];
}

abbrev pub world : World
world = record { db = stored; cache = [] }

abbrev pub defaults : Defaults
defaults = record { id = 50; created_at = 11; updated_at = 11 }

abbrev pub issue : Issue
issue = record {
  access_at = 12;
  access_jti = 101 ∷ [];
  refresh_at = 12;
  refresh_jti = 102 ∷ [];
  row = record { id = 60; created_at = 12; updated_at = 12 };
  stored_at = 12;
}

abbrev pub reads : RefreshReads
reads = record { decoded_at = 12; checked_at = 12; revoked_at = 12; issue = issue }

-- `issue` with another token and another row
abbrev pub reads_later : RefreshReads
reads_later = record { decoded_at = 20; checked_at = 20; revoked_at = 20; issue = issue }
