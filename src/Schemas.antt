-- ===== src/Schemas.antt =====
-- The request and response bodies: api/app/schemas/*.py.
pub mod Analytics
pub mod Responses
pub mod Passwords
use proyecto_1_back.Prelude.{ℕ, Bool, Option, none, some, List}
use proyecto_1_back.Prelude.Int.{ℤ}
use proyecto_1_back.Http.{Result, ok, err, integrity_error}
use proyecto_1_back.Text.{Text}
use proyecto_1_back.Models.{Uuid, Price, Json, Dish}

-- A field of an update body under `model_dump(exclude_unset=True)`: absent, sent as null, or a value.
pub data Patch (A : Type 0) : Type 0 where
  unset : Patch A
  null : Patch A
  set : A → Patch A

-- `setattr` on a NOT NULL column: a null is refused at the commit.
unfoldable pub required_column : {A : Type 0} → Patch A → A → Result A
required_column unset old = ok old
required_column null old = err integrity_error
required_column (set new) old = ok new

-- `setattr` on a nullable column
unfoldable pub nullable_column : {A : Type 0} → Patch A → Option A → Option A
nullable_column unset old = old
nullable_column null old = none
nullable_column (set new) old = some new

pub record RestaurantCreate : Type 0 where
  pub name : Text
  pub description : Option Text
  pub logo_url : Option Text
  pub phone : Option Text
  pub address : Option Text
  pub hours : Option Json

pub record RestaurantUpdate : Type 0 where
  pub name : Patch Text
  pub description : Patch Text
  pub logo_url : Patch Text
  pub phone : Patch Text
  pub address : Patch Text
  pub hours : Patch Json

pub record CategoryCreate : Type 0 where
  pub name : Text
  pub description : Option Text
  pub active : Bool

pub record CategoryUpdate : Type 0 where
  pub name : Patch Text
  pub description : Patch Text
  pub active : Patch Bool
  pub position : Patch ℤ

pub record DishCreate : Type 0 where
  pub category_id : Uuid
  pub name : Text
  pub description : Option Text
  pub price : Price
  pub sale_price : Option Price
  pub image_url : Option Text
  pub available : Bool
  pub featured : Bool
  pub tags : Option (List Text)

pub record DishUpdate : Type 0 where
  pub category_id : Patch Uuid
  pub name : Patch Text
  pub description : Patch Text
  pub price : Patch Price
  pub sale_price : Patch Price
  pub image_url : Patch Text
  pub available : Patch Bool
  pub featured : Patch Bool
  pub tags : Patch (List Text)
  pub position : Patch ℤ

pub record DishListResponse : Type 0 where
  pub items : List Dish
  pub total : ℕ
  pub limit : ℕ
  pub offset : ℕ

pub record MenuDishResponse : Type 0 where
  pub id : Uuid
  pub name : Text
  pub description : Option Text
  pub price : Price
  pub sale_price : Option Price
  pub image_url : Option Text
  pub tags : Option (List Text)
  pub featured : Bool
  pub position : ℤ

pub record MenuCategoryResponse : Type 0 where
  pub id : Uuid
  pub name : Text
  pub description : Option Text
  pub position : ℤ
  pub dishes : List MenuDishResponse

pub record MenuResponse : Type 0 where
  pub restaurant_id : Uuid
  pub restaurant_name : Text
  pub restaurant_slug : Text
  pub description : Option Text
  pub logo_url : Option Text
  pub phone : Option Text
  pub address : Option Text
  pub hours : Option Json
  pub categories : List MenuCategoryResponse
