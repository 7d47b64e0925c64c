-- ===== src/Services/Menu/Coherence.antt =====
-- The cached menus of api/app/services/menu_service.py beside the menus that the database gives.
use proyecto_1_back.Prelude.{
  ◌≡◌, refl, sym, ap, ◌∙◌, Option, none, some, arith, Bool-cases, inl, inr,
}
use proyecto_1_back.Http.{ok, Result-cases}
use proyecto_1_back.Text.{Text, codes, text_eq, text_eq_iff, starts_with-append}
use proyecto_1_back.Models.{Time, Db}
use proyecto_1_back.Schemas.{MenuResponse}
use proyecto_1_back.Cache.{Entry, find, cache_get, cache_set}
use proyecto_1_back.Cache.Laws.{
  find-invalidate_prefix, find-set, find-cache_get, cache_get-live, live,
}
use proyecto_1_back.App.{World}
use proyecto_1_back.Services.Settled.{forgotten}
use proyecto_1_back.Services.Menu.{cache_key, get_menu_by_slug, menu_or_build, menu_cache_ttl}
use proyecto_1_back.Services.Menu.Build.{fresh_menu}

-- Every cached menu is the menu that its slug has in the database now.
pub record IsCoherent (w : World) : Type 0 where
  pub at_slug :
      (slug : Text) (e : Entry MenuResponse)
      → find (cache_key slug) w.cache ≡ some e
      → fresh_menu slug w.db ≡ ok e.value

pub forgotten-IsCoherent : (w : World) (db : Db) → IsCoherent (forgotten w db)
forgotten-IsCoherent w db = record {
  at_slug = λ slug e h. cc (
    h,
    find-invalidate_prefix (codes "menu:") (cache_key slug) w.cache,
    starts_with-append (codes "menu:") slug,
  );
}

slug_of_key : (s t : Text) → cache_key s ≡ cache_key t → s ≡ t
slug_of_key s t h = cc

value_of :
    {a : MenuResponse} (e : Entry MenuResponse) (k : Text) (t : Time)
    → ◌≡◌ {A = Option (Entry MenuResponse)}
        (some (record { key = k; value = a; expires_at = t }))
        (some e)
    → a ≡ e.value
value_of e k t h = cc

-- the build of now, stored
pub stored-IsCoherent :
    (now : Time) (slug : Text) (menu : MenuResponse) (w : World)
    → fresh_menu slug w.db ≡ ok menu
    → IsCoherent w
    → IsCoherent (record w { cache = cache_set now (cache_key slug) menu menu_cache_ttl w.cache })
stored-IsCoherent now slug menu w h c = record {
  at_slug = λ s e found.
      let read =
        sym (find-set now (cache_key slug) (cache_key s) menu menu_cache_ttl w.cache) ∙ found in
      elim (Bool-cases (text_eq (cache_key s) (cache_key slug))) [
        | inl same ↦
            ap (λ t. fresh_menu t w.db)
              (slug_of_key s slug ((text_eq_iff (cache_key s) (cache_key slug)).0 same))
            ∙ h
            ∙ ap ok (value_of e (cache_key slug) _ (rw same at read))
        | inr other ↦ c.at_slug s e (rw other at read)
      ];
}

-- the state after the lookup
abbrev pub looked_up : Time → Text → World → World
looked_up now slug w = record w { cache = (cache_get now (cache_key slug) w.cache).1 }

pub looked_up-IsCoherent :
    (now : Time) (slug : Text) (w : World) → IsCoherent w → IsCoherent (looked_up now slug w)
looked_up-IsCoherent now slug w c = record {
  at_slug = λ s e h. c.at_slug s e (find-cache_get now (cache_key slug) (cache_key s) w.cache e h);
}

-- a live entry is an entry
live-some :
    (now : Time) (o : Option (Entry MenuResponse)) (menu : MenuResponse)
    → live now o ≡ some menu
    → (e : Entry MenuResponse) × (o ≡ some e) × (e.value ≡ menu)
live-some now none menu h = cc
live-some now (some e) menu h = (e, refl, ground arith)

menu_or_build-eq-fresh :
    (now : Time) (slug : Text) (o : Option MenuResponse) (w : World)
    → ((menu : MenuResponse) → o ≡ some menu → fresh_menu slug w.db ≡ ok menu)
    → (menu_or_build now slug o w).0 ≡ fresh_menu slug w.db
unfolding menu_or_build
menu_or_build-eq-fresh now slug (some menu) w h = sym (h menu refl)
menu_or_build-eq-fresh now slug none w h = elim (Result-cases (fresh_menu slug w.db)) [
  | inl (e, r) ↦ rw r
  | inr (menu, r) ↦ rw r
]

-- From a state whose cached menus are those of the database, `get_menu_by_slug` returns, menu or 404,
-- what a build from the database returns, whatever the clock says.
pub get_menu_by_slug-eq-fresh :
    (read_at stored_at : Time) (slug : Text) (w : World)
    → IsCoherent w
    → (get_menu_by_slug read_at stored_at slug w).0 ≡ fresh_menu slug w.db
unfolding get_menu_by_slug
get_menu_by_slug-eq-fresh read_at stored_at slug w c =
    menu_or_build-eq-fresh stored_at slug (cache_get read_at (cache_key slug) w.cache).0
      (looked_up read_at slug w)
      λ menu h.
        let (e, found, is) =
          live-some read_at (find (cache_key slug) w.cache) menu
            (sym (cache_get-live read_at (cache_key slug) w.cache) ∙ h) in
        c.at_slug slug e found ∙ ap ok is

-- A state with the same cache and the same restaurants, categories and dishes.
pub SameMenus-IsCoherent :
    (w : World) (db : Db)
    → ((slug : Text) → fresh_menu slug db ≡ fresh_menu slug w.db)
    → IsCoherent w
    → IsCoherent (record w { db = db })
SameMenus-IsCoherent w db same c = record { at_slug = λ s e h. same s ∙ c.at_slug s e h }
