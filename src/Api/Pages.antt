-- ===== src/Api/Pages.antt =====
-- `render_menu` of api/app/api/routers/menu_public.py: the scan, and the context of the template. The
-- template itself is Jinja's work, and `_hash_ip` is that of api/app/api/routers/menu.py.
use proyecto_1_back.Prelude.{
  zero, suc, ◌≡◌, refl, Bool, Option, none, some, List, [], ◌∷◌, ◌++◌, map, if◌then◌else◌,
}
use proyecto_1_back.Prelude.Int.{ℤ}
use proyecto_1_back.Http.{Result, ok, err}
use proyecto_1_back.Text.{Text, codes}
use proyecto_1_back.Env.{Env}
use proyecto_1_back.Models.{Uuid, Time, Price, Json}
use proyecto_1_back.Schemas.{MenuResponse, MenuCategoryResponse, MenuDishResponse}
use proyecto_1_back.App.{World, Exec, pure, commit, continue, ◌>>=◌, ◌>>◌}
use proyecto_1_back.Services.Menu
use proyecto_1_back.Services.Menu.{Scan, event_of, add_scan, best_effort}

-- `float(price)`, `json.dumps(hours)` and the truth of `hours`, a dict
pub record Rendering (F : Type 0) : Type 0 where
  pub float : Price → F
  pub dumps : Json → Text
  pub has_entries : Json → Bool

pub record DishContext (F : Type 0) : Type 0 where
  pub id : Text
  pub name : Text
  pub description : Option Text
  pub price : F
  pub sale_price : Option F
  pub image_url : Option Text
  pub tags : List Text
  pub featured : Bool
  pub position : ℤ

pub record CategoryContext (F : Type 0) : Type 0 where
  pub id : Text
  pub name : Text
  pub description : Option Text
  pub position : ℤ
  pub dishes : List (DishContext F)

pub record Context (F : Type 0) : Type 0 where
  pub restaurant_name : Text
  pub restaurant_slug : Text
  pub description : Text
  pub logo_url : Text
  pub phone : Text
  pub address : Text
  pub hours : Text
  pub categories : List (CategoryContext F)

-- `str(x) if x else ""`
abbrev pub text_or_empty : Option Text → Text
text_or_empty none = []
text_or_empty (some s) = s

-- `dish.tags or []`
abbrev pub list_or_empty : Option (List Text) → List Text
list_or_empty none = []
list_or_empty (some tags) = tags

-- What a request shows of its client: the host, and two headers.
pub record Visitor : Type 0 where
  pub host : Option Text
  pub user_agent : Option Text
  pub referer : Option Text

abbrev pub or_unknown : Option Text → Text
or_unknown none = codes "unknown"
or_unknown (some s) = s

-- `_hash_ip`
unfoldable pub hash_ip : Env → Text → Text → Text
hash_ip env ip_hash_salt ip = env.sha256 (ip_hash_salt ++ (58 ∷ ip))

-- the row that a visit adds, with its fresh id and time
unfoldable pub scan_of : Env → Text → Uuid → Time → Visitor → Scan
unfolding hash_ip
scan_of env ip_hash_salt id timestamp v = record {
  id = id;
  timestamp = timestamp;
  user_agent = or_unknown v.user_agent;
  ip_hash = hash_ip env ip_hash_salt (or_unknown v.host);
  referrer = v.referer;
}

module _ {F : Type 0} (rendering : Rendering F) (env : Env) where
  -- `float(dish.sale_price) if dish.sale_price else None`: a price of 0 is shown as none
  unfoldable pub sale : Option Price → Option F
  sale none = none
  sale (some zero) = none
  sale (some (suc p)) = some (rendering.float (suc p))

  unfoldable pub dish_data : MenuDishResponse → DishContext F
  unfolding sale
  dish_data dish = record {
    id = env.uuid_text dish.id;
    name = dish.name;
    description = dish.description;
    price = rendering.float dish.price;
    sale_price = sale dish.sale_price;
    image_url = dish.image_url;
    tags = list_or_empty dish.tags;
    featured = dish.featured;
    position = dish.position;
  }

  unfoldable pub category_data : MenuCategoryResponse → CategoryContext F
  unfolding dish_data
  category_data cat = record {
    id = env.uuid_text cat.id;
    name = cat.name;
    description = cat.description;
    position = cat.position;
    dishes = map dish_data cat.dishes;
  }

  abbrev pub hours_text : Option Json → Text
  hours_text none = codes "{}"
  hours_text (some hours) =
      if rendering.has_entries hours then rendering.dumps hours else codes "{}"

  unfoldable pub context_data : MenuResponse → Context F
  unfolding category_data
  context_data menu = record {
    restaurant_name = menu.restaurant_name;
    restaurant_slug = menu.restaurant_slug;
    description = text_or_empty menu.description;
    logo_url = text_or_empty menu.logo_url;
    phone = text_or_empty menu.phone;
    address = text_or_empty menu.address;
    hours = hours_text menu.hours;
    categories = map category_data menu.categories;
  }

  unfoldable pub render_menu : Time → Time → Scan → Text → Exec (Context F)
  unfolding context_data
  render_menu read_at stored_at scan slug = do
    menu ← Menu.get_menu_by_slug read_at stored_at slug
    best_effort (commit (add_scan (event_of scan menu.restaurant_id)))
    pure (context_data menu)

  -- the scan, and what is shown after it
  abbrev scan_and : {A : Type 0} → Scan → (MenuResponse → A) → MenuResponse → Exec A
  scan_and scan shown menu =
      best_effort (commit (add_scan (event_of scan menu.restaurant_id))) >> pure (shown menu)

  same_state :
      (scan : Scan) (p : Result MenuResponse × World)
      → (continue (scan_and scan context_data) p).1 ≡ (continue (scan_and scan (λ menu. menu)) p).1
  same_state scan (ok menu, w) = refl
  same_state scan (err e, w) = refl

  -- A visit of the page leaves the state that a request for the menu leaves.
  pub render_menu-get_menu :
      (read_at stored_at : Time) (scan : Scan) (slug : Text) (w : World)
      → (render_menu read_at stored_at scan slug w).1
        ≡ (Menu.get_menu read_at stored_at scan slug w).1
  unfolding render_menu Menu.get_menu
  render_menu-get_menu read_at stored_at scan slug w =
      same_state scan (Menu.get_menu_by_slug read_at stored_at slug w)
