-- ===== src/Api/Routes/States.antt =====
-- The state behind a response of api/app/api/routers/.
use proyecto_1_back.Prelude.{ℕ, ◌≡◌, refl}
use proyecto_1_back.Http.{Result, ok, err}
use proyecto_1_back.Text.{Text}
use proyecto_1_back.Env.{Env}
use proyecto_1_back.App.{World}
use proyecto_1_back.Api.{Request, handle}
use proyecto_1_back.Api.Responses.{Times, Body, answer}
use proyecto_1_back.Api.Routes
use proyecto_1_back.Api.Routes.{respond}

answer_state :
    {A : Type 0} (id : Text) (status_code : ℕ) (shown : A → Body) (x : Result A × World)
    → (answer id status_code shown x).1 ≡ x.1
answer_state id status_code shown (ok a, w) = refl
answer_state id status_code shown (err e, w) = refl

-- A response leaves the state that `handle` says.
pub respond-handle :
    (times : Times) (env : Env) (request_id : Text) (r : Request) (w : World)
    → (respond times env request_id r w).1 ≡ handle env r w
unfolding respond handle Routes.register Routes.login Routes.refresh Routes.logout
    Routes.get_restaurant Routes.create_restaurant Routes.update_restaurant Routes.delete_restaurant
    Routes.list_categories Routes.create_category Routes.update_category Routes.delete_category
    Routes.reorder_categories Routes.list_dishes Routes.get_dish Routes.create_dish
    Routes.update_dish Routes.delete_dish Routes.toggle_dish_availability Routes.get_menu
respond-handle times env request_id (Request.register salt d i email password) w =
    answer_state request_id _ _ _
respond-handle times env request_id (Request.login i email password) w =
    answer_state request_id _ _ _
respond-handle times env request_id (Request.refresh r token) w = answer_state request_id _ _ _
respond-handle times env request_id (Request.logout b now) w = answer_state request_id _ _ _
respond-handle times env request_id (Request.get_restaurant b) w = answer_state request_id _ _ _
respond-handle times env request_id (Request.create_restaurant b d body) w =
    answer_state request_id _ _ _
respond-handle times env request_id (Request.update_restaurant b stamp body) w =
    answer_state request_id _ _ _
respond-handle times env request_id (Request.delete_restaurant b) w = answer_state request_id _ _ _
respond-handle times env request_id (Request.list_categories b) w = answer_state request_id _ _ _
respond-handle times env request_id (Request.create_category b d body) w =
    answer_state request_id _ _ _
respond-handle times env request_id (Request.update_category b stamp id body) w =
    answer_state request_id _ _ _
respond-handle times env request_id (Request.delete_category b id) w = answer_state request_id _ _ _
respond-handle times env request_id (Request.reorder_categories b clock ids) w =
    answer_state request_id _ _ _
respond-handle times env request_id (Request.list_dishes b f limit offset) w =
    answer_state request_id _ _ _
respond-handle times env request_id (Request.get_dish b id) w = answer_state request_id _ _ _
respond-handle times env request_id (Request.create_dish b d body) w = answer_state request_id _ _ _
respond-handle times env request_id (Request.update_dish b stamp id body) w =
    answer_state request_id _ _ _
respond-handle times env request_id (Request.delete_dish b now stamp id) w =
    answer_state request_id _ _ _
respond-handle times env request_id (Request.toggle_dish_availability b stamp id) w =
    answer_state request_id _ _ _
respond-handle times env request_id (Request.get_menu read_at stored_at scan slug) w =
    answer_state request_id _ _ _
