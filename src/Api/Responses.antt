-- ===== src/Api/Responses.antt =====
-- The responses of api/app/api/routers/: what the routes make of what the services return or raise.
use proyecto_1_back.Prelude.{ℕ, List}
use mathlib.Core.Option
use proyecto_1_back.Http.{Result, ok, err}
use proyecto_1_back.Text.{Text, codes}
use proyecto_1_back.Models.{Time, User, Restaurant, Category, Dish}
use proyecto_1_back.Schemas.{DishListResponse, MenuResponse}
use proyecto_1_back.Schemas.Responses.{
  AuthResponse, TokenResponse, RestaurantResponse, CategoryResponse, DishResponse,
}
use proyecto_1_back.App.{World}
use proyecto_1_back.Middleware.{ErrorResponse, handled}

-- `created_at.isoformat()`, and what pydantic reads from such a text for a `datetime` field
pub record Times : Type 0 where
  pub isoformat : Time → Text
  pub datetime_of : Text → Time

pub data Body : Type 0 where
  no_content : Body
  auth : AuthResponse → Body
  tokens : TokenResponse → Body
  restaurant : RestaurantResponse → Body
  category : CategoryResponse → Body
  categories : List CategoryResponse → Body
  dish : DishResponse → Body
  dishes : DishListResponse → Body
  menu : MenuResponse → Body
  error : ErrorResponse → Body

pub record Response : Type 0 where
  pub status_code : ℕ
  pub body : Body

-- the response of a route, or of the handler of what it raises
abbrev pub answer : {A : Type 0} → Text → ℕ → (A → Body) → Result A × World → Response × World
answer id status_code shown (ok a, w) = (record { status_code = status_code; body = shown a }, w)
answer id status_code shown (err e, w) =
    (record { status_code = (handled id e).status_code; body = error (handled id e) }, w)

abbrev pub tokens_body : Text × Text → Body
tokens_body t =
    tokens (record { access_token = t.0; refresh_token = t.1; token_type = codes "bearer" })

module _ (times : Times) where
  unfoldable pub auth_body : User × Text × Text → Body
  auth_body signed = auth (record {
    user = record {
      id = signed.0.id;
      email = signed.0.email;
      created_at = times.isoformat signed.0.created_at;
    };
    access_token = signed.1;
    refresh_token = signed.2;
    token_type = codes "bearer";
  })

  unfoldable pub restaurant_body : Restaurant → Body
  restaurant_body r = restaurant (record {
    id = r.id;
    owner_user_id = r.owner_user_id;
    name = r.name;
    slug = r.slug;
    description = r.description;
    logo_url = r.logo_url;
    phone = r.phone;
    address = r.address;
    hours = r.hours;
    created_at = times.isoformat r.created_at;
    updated_at = times.isoformat r.updated_at;
  })

  unfoldable pub category_response : Category → CategoryResponse
  category_response cat = record {
    id = cat.id;
    restaurant_id = cat.restaurant_id;
    name = cat.name;
    description = cat.description;
    position = cat.position;
    active = cat.active;
    created_at = times.isoformat cat.created_at;
    updated_at = times.isoformat cat.updated_at;
  }

  unfoldable pub dish_body : Dish → Body
  dish_body d = dish (record {
    id = d.id;
    category_id = d.category_id;
    name = d.name;
    description = d.description;
    price = d.price;
    sale_price = d.sale_price;
    image_url = d.image_url;
    available = d.available;
    featured = d.featured;
    tags = d.tags;
    position = d.position;
    created_at = times.datetime_of (times.isoformat d.created_at);
    updated_at = times.datetime_of (times.isoformat d.updated_at);
    deleted_at = Option.map (λ t. times.datetime_of (times.isoformat t)) d.deleted_at;
  })
