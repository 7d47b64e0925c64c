-- ===== src/Models.antt =====
-- The rows of the database: api/app/models/*.py.
-- A UUID is a number that is only compared. A time is a number of microseconds. A price is in
-- hundredths, as Numeric(10, 2) keeps it. A JSON value is a text that is only carried along.
use proyecto_1_back.Prelude.{ℕ, Bool, Option, List}
use proyecto_1_back.Prelude.Int.{ℤ}
use proyecto_1_back.Text.{Text}

abbrev pub Uuid : Type 0
Uuid = ℕ

abbrev pub Time : Type 0
Time = ℕ

abbrev pub Price : Type 0
Price = ℕ

abbrev pub Json : Type 0
Json = Text

pub record User : Type 0 where
  pub id : Uuid
  pub email : Text
  pub password_hash : Text
  pub created_at : Time
  pub updated_at : Time

pub record Restaurant : Type 0 where
  pub id : Uuid
  pub owner_user_id : Uuid
  pub name : Text
  pub slug : Text
  pub description : Option Text
  pub logo_url : Option Text
  pub phone : Option Text
  pub address : Option Text
  pub hours : Option Json
  pub created_at : Time
  pub updated_at : Time

pub record Category : Type 0 where
  pub id : Uuid
  pub restaurant_id : Uuid
  pub name : Text
  pub description : Option Text
  pub position : ℤ
  pub active : Bool
  pub created_at : Time
  pub updated_at : Time

pub record Dish : Type 0 where
  pub id : Uuid
  pub category_id : Uuid
  pub name : Text
  pub description : Option Text
  pub price : Price
  pub sale_price : Option Price
  pub image_url : Option Text
  pub available : Bool
  pub featured : Bool
  pub tags : Option (List Text)
  pub position : ℤ
  pub created_at : Time
  pub updated_at : Time
  pub deleted_at : Option Time

pub record ScanEvent : Type 0 where
  pub id : Uuid
  pub restaurant_id : Uuid
  pub timestamp : Time
  pub user_agent : Text
  pub ip_hash : Text
  pub referrer : Option Text

pub record RefreshToken : Type 0 where
  pub id : Uuid
  pub user_id : Uuid
  pub token_hash : Text
  pub revoked_at : Option Time
  pub expires_at : Time
  pub created_at : Time

pub record Db : Type 0 where
  pub users : List User
  pub restaurants : List Restaurant
  pub categories : List Category
  pub dishes : List Dish
  pub scan_events : List ScanEvent
  pub refresh_tokens : List RefreshToken

-- What the column defaults `uuid.uuid4` and `utcnow` give a new row.
pub record Defaults : Type 0 where
  pub id : Uuid
  pub created_at : Time
  pub updated_at : Time
