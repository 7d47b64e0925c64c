-- ===== src/Api/Reports.antt =====
-- api/app/api/routers/analytics.py and qr.py, with api/app/services/qr_service.py. Drawing a QR code is the
-- work of a library, and a parameter.
use proyecto_1_back.Prelude.{ℕ, Option, ◌++◌}
use proyecto_1_back.Http.{Result}
use proyecto_1_back.Text.{Text, codes}
use proyecto_1_back.Env.{Env}
use proyecto_1_back.Models.{Restaurant}
use proyecto_1_back.Schemas.Analytics.{AnalyticsResponse}
use proyecto_1_back.App.{Exec, pure, lift, ◌>>=◌}
use proyecto_1_back.Repositories.Analytics.{Calendar, Datetime}
use proyecto_1_back.Services.Analytics as Service
use proyecto_1_back.Services.Restaurants.{get_by_owner}
use proyecto_1_back.Api.{Bearer, as_user}

-- `granularity: str = Query(pattern="^(day|week|month)$")`
pub data Granularity : Type 0 where
  day week month : Granularity

abbrev pub granularity_name : Granularity → Text
granularity_name day = codes "day"
granularity_name week = codes "week"
granularity_name month = codes "month"

-- a response with a file
pub record FileResponse (B : Type 0) : Type 0 where
  pub content : B
  pub media_type : Text
  pub content_disposition : Text

-- `format: str = Query(pattern="^(png|svg)$")` and `size: str = Query(pattern="^(S|M|L|XL)$")`
pub data Format : Type 0 where
  png svg : Format

pub data Size : Type 0 where
  s m l xl : Size

-- `resolve_box_size`, on the sizes that the route lets through
unfoldable pub resolve_box_size : Size → ℕ
resolve_box_size s = 5
resolve_box_size m = 10
resolve_box_size l = 20
resolve_box_size xl = 30

abbrev pub menu_url : Restaurant → Text
menu_url restaurant = codes "https://localhost/m/" ++ restaurant.slug

module _ (env : Env) where
  unfoldable pub get_analytics :
      Calendar → Bearer → Granularity → Option Datetime → Option Datetime → Exec AnalyticsResponse
  unfolding as_user
  get_analytics calendar b granularity from_date to_date = as_user env b λ user_id.
      Service.get_analytics calendar user_id (granularity_name granularity) from_date to_date

  unfoldable pub export_analytics :
      Calendar → Bearer → Option Datetime → Option Datetime → Exec (FileResponse Text)
  unfolding as_user
  export_analytics calendar b from_date to_date = as_user env b λ user_id. do
    csv_data ← Service.export_analytics calendar user_id from_date to_date
    pure (record {
      content = csv_data;
      media_type = codes "text/csv";
      content_disposition = codes "attachment; filename=analytics_export.csv";
    })

  -- `draw` is `generate_qr_svg` or `generate_qr_png`: the URL, the box size and the two colours
  unfoldable pub get_qr_code :
      {B : Type 0}
      → (Format → Text → ℕ → Text → Text → Result B)
      → Bearer
      → Format
      → Size
      → Text
      → Text
      → Exec (FileResponse B)
  unfolding as_user get_by_owner resolve_box_size
  get_qr_code draw b svg size fill_color back_color = as_user env b λ user_id. do
    restaurant ← get_by_owner user_id
    qr_bytes ← lift (draw svg (menu_url restaurant) (resolve_box_size size) fill_color back_color)
    pure (record {
      content = qr_bytes;
      media_type = codes "image/svg+xml";
      content_disposition = codes "inline; filename=\"" ++ (restaurant.slug ++ codes "-qr.svg\"");
    })
  get_qr_code draw b png size fill_color back_color = as_user env b λ user_id. do
    restaurant ← get_by_owner user_id
    qr_bytes ← lift (draw png (menu_url restaurant) (resolve_box_size size) fill_color back_color)
    pure (record {
      content = qr_bytes;
      media_type = codes "image/png";
      content_disposition = codes "inline; filename=\"" ++ (restaurant.slug ++ codes "-qr.png\"");
    })
