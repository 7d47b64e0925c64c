-- ===== src/Schemas/Responses.antt =====
-- The response models of api/app/schemas/auth.py, restaurant.py, category.py and dish.py.
use proyecto_1_back.Prelude.{Bool, Option, List}
use proyecto_1_back.Prelude.Int.{ℤ}
use proyecto_1_back.Text.{Text}
use proyecto_1_back.Models.{Uuid, Time, Price, Json}

pub record UserResponse : Type 0 where
  pub id : Uuid
  pub email : Text
  pub created_at : Text

pub record AuthResponse : Type 0 where
  pub user : UserResponse
  pub access_token : Text
  pub refresh_token : Text
  pub token_type : Text

pub record TokenResponse : Type 0 where
  pub access_token : Text
  pub refresh_token : Text
  pub token_type : Text

pub record RestaurantResponse : Type 0 where
  pub id : Uuid
  pub owner_user_id : Uuid
  pub name : Text
  pub slug : Text
  pub description : Option Text
  pub logo_url : Option Text
  pub phone : Option Text
  pub address : Option Text
  pub hours : Option Json
  pub created_at : Text
  pub updated_at : Text

pub record CategoryResponse : Type 0 where
  pub id : Uuid
  pub restaurant_id : Uuid
  pub name : Text
  pub description : Option Text
  pub position : ℤ
  pub active : Bool
  pub created_at : Text
  pub updated_at : Text

pub record DishResponse : Type 0 where
  pub id : Uuid
  pub category_id : Uuid
  pub name : Text
  pub description : Option Text
  pub price : Price
  pub sale_price : Option Price
  pub image_url : Option Text
  pub available : Bool
  pub featured : Bool
  pub tags : Option (List Text)
  pub position : ℤ
  pub created_at : Time
  pub updated_at : Time
  pub deleted_at : Option Time
