-- ===== src/Services/Dishes/Created.antt =====
-- `create` of api/app/services/dish_service.py, on the rows of the tables.
use proyecto_1_back.Prelude.{◌≡◌, none}
use proyecto_1_back.Models.{Dish, Defaults}
use proyecto_1_back.Schemas.{DishCreate}
use proyecto_1_back.Repositories.Dishes as Rows

-- the columns that a body asks for, with the defaults of a new row
pub record AsAsked (d : Defaults) (body : DishCreate) (dish : Dish) : Type 0 where
  pub id : dish.id ≡ d.id
  pub category_id : dish.category_id ≡ body.category_id
  pub name : dish.name ≡ body.name
  pub description : dish.description ≡ body.description
  pub price : dish.price ≡ body.price
  pub sale_price : dish.sale_price ≡ body.sale_price
  pub image_url : dish.image_url ≡ body.image_url
  pub available : dish.available ≡ body.available
  pub featured : dish.featured ≡ body.featured
  pub tags : dish.tags ≡ body.tags
  pub created_at : dish.created_at ≡ d.created_at
  pub updated_at : dish.updated_at ≡ d.updated_at
  pub deleted_at : dish.deleted_at ≡ none
